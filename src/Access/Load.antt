-- ===== src/Access/Load.antt =====
-- The families `load_0_eventually` and `load_0`, `load_0_eventually_no_pf`, and `invalidate`.
use altered_ccbench_fork.Common.{ℕ, ◌+◌, if◌then◌else◌, ◌==◌}
use altered_ccbench_fork.Machine.{
  Config, M, ◌>>=◌, ◌>>◌, return, load, pfdi, pfdo, timed, fence, lfence, mfence, clflush,
}
use altered_ccbench_fork.Access.Atomic.{eventually}

module _ (c : Config) where
  open c use {test_lfence, fuel}

  unfoldable pub load_0_eventually_lf : ℕ → ℕ → M ℕ
  load_0_eventually_lf cl reps =
      eventually c fuel
        (λ cln. timed c 0 reps (do val ← load c (cl + cln); fence lfence; return val))

  unfoldable pub load_0_eventually_mf : ℕ → ℕ → M ℕ
  load_0_eventually_mf cl reps =
      eventually c fuel
        (λ cln. timed c 0 reps (do val ← load c (cl + cln); fence mfence; return val))

  unfoldable pub load_0_eventually_nf : ℕ → ℕ → M ℕ
  load_0_eventually_nf cl reps = eventually c fuel (λ cln. timed c 0 reps (load c (cl + cln)))

  unfoldable pub load_0_eventually : ℕ → ℕ → M ℕ
  load_0_eventually cl reps = do
    val ←
        if test_lfence == 0
        then load_0_eventually_nf cl reps
        else if test_lfence == 1
        then load_0_eventually_lf cl reps
        else if test_lfence == 2
        then load_0_eventually_mf cl reps
        else return 0
    fence mfence
    return val

  unfoldable pub load_0_eventually_no_pf : ℕ → M ℕ
  load_0_eventually_no_pf cl = do
    sum ← eventually c fuel (λ cln. load c (cl + cln))
    fence mfence
    return sum

  unfoldable pub load_0_lf : ℕ → ℕ → M ℕ
  load_0_lf cl reps = timed c 0 reps (do val ← load c cl; fence lfence; return val)

  unfoldable pub load_0_mf : ℕ → ℕ → M ℕ
  load_0_mf cl reps = timed c 0 reps (do val ← load c cl; fence mfence; return val)

  unfoldable pub load_0_nf : ℕ → ℕ → M ℕ
  load_0_nf cl reps = timed c 0 reps (load c cl)

  unfoldable pub load_0 : ℕ → ℕ → M ℕ
  load_0 cl reps = do
    val ←
        if test_lfence == 0
        then load_0_nf cl reps
        else if test_lfence == 1
        then load_0_lf cl reps
        else if test_lfence == 2
        then load_0_mf cl reps
        else return 0
    fence mfence
    return val

  unfoldable pub invalidate : ℕ → ℕ → ℕ → M (Unit {0})
  invalidate cl index reps = do pfdi c 0; fence (clflush (cl + index)); pfdo c 0 reps; fence mfence
