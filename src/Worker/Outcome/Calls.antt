-- ===== src/Worker/Outcome/Calls.antt =====
-- The calls of a program: the sum of their results, and the line that `cache_line` points to.
use mathlib.Core.Path.{subst₂}
use altered_ccbench_fork.Common.{
  ℕ, ◌+◌, ◌-◌, ◌%◌, ◌≤◌, ◌≡◌, ◌∙◌, sym, arith, lt→ltb, update_self, refl, if◌then◌else◌, ◌==◌, List,
  [], ◌∷◌, subst,
}
use altered_ccbench_fork.Machine.{
  Config, M, Local, Lines, Outcome, ok, fault, unfinished, proceed, u64, u32, store, fence,
}
use altered_ccbench_fork.Access
use altered_ccbench_fork.Access.{expected, replacement, truth}
use altered_ccbench_fork.Access.Rounds.{Returns, IsLively, Returns-proceed, Returns-weaken}
use altered_ccbench_fork.Access.Sequential.{InRange, Frame}
use altered_ccbench_fork.Access.Results.{cas_0_eventually_lem, tas_lem, fai_lem}
use altered_ccbench_fork.Access.Transfers.{store_0_eventually_lem}
use altered_ccbench_fork.Worker.Program.{
  Call, cas_0_eventually, tas, fai, store_0_eventually, write_word, full_fence,
}
use altered_ccbench_fork.Worker.Exec.{exec, exec_at, add_sum}
use altered_ccbench_fork.Worker.Round.{exec_all}

-- The thread with sum `s`, ready for its next call on line `cl`.
pub record Ready (c : Config) (cl s : ℕ) (l : Local) : Type 0 where
  pub line : l.cache_line ≡ cl
  pub total : l.sum ≡ s
  pub lively : IsLively c l.seeds

-- The outcome of calls that leave the thread with sum `s` and line `cl` with the value `x`.
abbrev pub Leaves : Config → ℕ → ℕ → ℕ → Outcome (Unit {0}) → Type 0
Leaves c cl s x = Returns (λ u l w. Ready c cl s l × (w cl ≡ x))

pub Leaves-to :
    (c : Config) (cl : ℕ) (o : Outcome (Unit {0})) {s s' x x' : ℕ}
    → Leaves c cl s x o
    → s ≡ s'
    → x ≡ x'
    → Leaves c cl s' x' o
Leaves-to c cl o h e e' = subst₂ (λ s x. Leaves c cl s x o) e e' h

pub Returns-at :
    {A : Type 0} (P : A → Local → Lines → Type 0) (o : Outcome A) {a : A} {l : Local} {w : Lines}
    → Returns P o
    → o ≡ ok a l w
    → P a l w
Returns-at P o r e = subst (Returns P) e r

pub Returns-ok :
    {A : Type 0} (P : A → Local → Lines → Type 0) (o : Outcome A)
    → Returns P o
    → (a : A) × (l : Local) × (w : Lines) × (o ≡ ok a l w) × P a l w
Returns-ok P (ok a l w) h = (a, l, w, refl, h)
Returns-ok P fault h = absurd h
Returns-ok P unfinished h = absurd h

pub exec_all-two :
    (c : Config) (reps cl s s' x x' : ℕ) (a : Call) (rest : List Call) (l : Local) (w : Lines)
    → Leaves c cl s x (exec c reps a l w)
    → ((l' : Local) (w' : Lines)
        → Ready c cl s l'
        → w' cl ≡ x
        → Leaves c cl s' x' (exec_all c reps rest l' w'))
    → Leaves c cl s' x' (exec_all c reps (a ∷ rest) l w)
unfolding exec_all
exec_all-two c reps cl s s' x x' a rest l w h k =
    Returns-proceed _ _ (exec c reps a l w) _ h (λ u l' w' (r, e). k l' w' r e)

pub exec_all-one :
    (c : Config) (reps cl s x : ℕ) (a : Call) (l : Local) (w : Lines)
    → Leaves c cl s x (exec c reps a l w)
    → Leaves c cl s x (exec_all c reps (a ∷ []) l w)
unfolding exec_all
exec_all-one c reps cl s x a l w h = Returns-proceed _ _ (exec c reps a l w) _ h (λ u l' w' p. p)

module _ (c : Config) (reps cl s : ℕ) (range : InRange c cl reps) (l : Local) (w : Lines)
    (ready : Ready c cl s l) where
  open ready use {line, total, lively}

  summed :
      (op : M ℕ) (v x : ℕ)
      → Returns (λ r l' w'. Frame c cl l w l' w' × (r ≡ v) × (w' cl ≡ x)) (op l w)
      → Leaves c cl (u64 (s + v)) x (proceed (op l w) add_sum)
  unfolding add_sum
  summed op v x h = Returns-proceed _ _ (op l w) add_sum h λ r l' w' (f, e, e'). (
    record {
      line = f.same_line ∙ line;
      total = omega (arith, f.same_sum, total, e);
      lively = f.lively;
    },
    e',
  )

  from_line :
      (a : Call) (s' x : ℕ)
      → Leaves c cl s' x (exec_at c reps a cl l w)
      → Leaves c cl s' x (exec c reps a l w)
  unfolding exec
  from_line a s' x h = subst (λ k. Leaves c cl s' x (exec_at c reps a k l w)) (sym line) h

  pub exec-cas :
      Leaves c cl
        (u64 (s + truth (w cl == expected c reps)))
        (if w cl == expected c reps then replacement c reps else w cl)
        (exec c reps cas_0_eventually l w)
  unfolding exec_at
  exec-cas =
      from_line cas_0_eventually (u64 (s + truth (w cl == expected c reps)))
        (if w cl == expected c reps then replacement c reps else w cl)
        (summed (Access.cas_0_eventually c cl reps) (truth (w cl == expected c reps))
          (if w cl == expected c reps then replacement c reps else w cl)
          (cas_0_eventually_lem c cl reps range l w lively))

  pub exec-tas :
      Leaves c cl
        (u64 (s + (if w cl % 256 == 255 then 0 else 1)))
        (w cl - w cl % 256 + 255)
        (exec c reps tas l w)
  unfolding exec_at
  exec-tas =
      from_line tas (u64 (s + (if w cl % 256 == 255 then 0 else 1))) (w cl - w cl % 256 + 255) (
        summed (Access.tas c cl reps) (if w cl % 256 == 255 then 0 else 1) (w cl - w cl % 256 + 255)
          (tas_lem c cl reps range l w lively))

  pub exec-fai : Leaves c cl (u64 (s + w cl)) (u32 (w cl + 1)) (exec c reps fai l w)
  unfolding exec_at
  exec-fai =
      from_line fai (u64 (s + w cl)) (u32 (w cl + 1))
        (summed (Access.fai c cl reps) (w cl) (u32 (w cl + 1)) (fai_lem c cl reps range l w lively))

  pub exec-store : c.test_sfence ≤ 2 → Leaves c cl s 0 (exec c reps store_0_eventually l w)
  unfolding exec_at
  exec-store h = from_line store_0_eventually s 0 (
      Returns-weaken (λ u l' w'. Frame c cl l w l' w' × (w' cl ≡ 0))
        (λ u l' w'. Ready c cl s l' × (w' cl ≡ 0)) (Access.store_0_eventually c cl reps l w)
        (store_0_eventually_lem c cl reps range l w lively h)
        λ u l' w' (f, e).
          (record { line = f.same_line ∙ line; total = f.same_sum ∙ total; lively = f.lively }, e))

  pub exec-write_word : (v : ℕ) → Leaves c cl s v (exec c reps (write_word v) l w)
  unfolding exec_at store
  exec-write_word v = from_line (write_word v) s v (
      rw (lt→ltb cl c.test_cache_line_num (omega (arith, range.pos, range.room)))
        (ready, update_self w cl v))

  pub exec-full_fence : Leaves c cl s (w cl) (exec c reps full_fence l w)
  unfolding exec exec_at fence
  exec-full_fence = (record { line = line; total = total; lively = lively }, refl)
