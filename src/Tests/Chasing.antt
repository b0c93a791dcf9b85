-- ===== src/Tests/Chasing.antt =====
-- The theorems on the linked list at a concrete input: two lines at address 4096.
use altered_ccbench_fork.Common.{ℕ, zero, suc, ◌<◌, ◌≡◌, arith, refl, some, inl, inr}
use altered_ccbench_fork.Random.{xorshf96, shl64}
use altered_ccbench_fork.Machine.{Lines, Config}
use altered_ccbench_fork.Access.Rounds.{Returns}
use altered_ccbench_fork.Chase.Visit.{load_next_lem}
use altered_ccbench_fork.Tests.Data.{config, thread}
use altered_ccbench_fork.Chase.{load_next, create_rand_list_cl, list_seeds}
use altered_ccbench_fork.Chase.Draw.{Draws, IsFair}
use altered_ccbench_fork.Chase.Cycle.{IsCycle, create_rand_list_cl-IsCycle}

-- The first draw is line 1, the second line 0.
Draws-both : (j : ℕ) → j < 2 → Draws 2 2 list_seeds j
unfolding xorshf96 shl64
Draws-both zero lt = inr (inl refl)
Draws-both (suc zero) lt = inl refl
Draws-both (suc (suc j)) lt = absurd (omega arith)

pub fair : IsFair 2 2 1 list_seeds
fair = (Draws-both, λ d le. tt)

create_rand_list_cl-IsCycle_example :
    (w' : Lines) × (create_rand_list_cl 4096 2 2 (λ i. 0) ≡ some w')
    × ((order : ℕ → ℕ) × IsCycle 4096 2 (λ i. 0) w' order)
create_rand_list_cl-IsCycle_example =
    create_rand_list_cl-IsCycle 4096 2 2 (λ i. 0) (omega arith) fair

abbrev two_lines : Config
two_lines = record config { test_cache_line_num = 2; base = 4096 }

abbrev built :
    (w' : Lines) × (create_rand_list_cl 4096 2 2 (λ i. 0) ≡ some w')
    × ((order : ℕ → ℕ) × IsCycle 4096 2 (λ i. 0) w' order)
built = create_rand_list_cl-IsCycle 4096 2 2 (λ i. 0) (omega arith) fair

load_next_lem_example :
    Returns
      (λ v l' w'. (v ≡ built.0 0) × (w' ≡ built.0))
      (load_next two_lines 0 1 (thread 0) built.0)
load_next_lem_example =
    load_next_lem two_lines (λ i. 0) built.0 built.2.0 built.2.1 1 (omega arith) (omega arith)
      (omega arith) (omega arith) (thread 0)
