-- ===== src/Access/Store.antt =====
-- `store_0`, `store_0_no_pf`, and the families `store_0_eventually` and `store_0_eventually_pfd1`.
use altered_ccbench_fork.Common.{ℕ, ◌+◌, if◌then◌else◌, ◌==◌}
use altered_ccbench_fork.Machine.{Config, M, ◌>>◌, return, store, timed, fence, sfence, mfence, u32}
use altered_ccbench_fork.Access.Atomic.{eventually}

module _ (c : Config) where
  open c use {test_sfence, fuel}

  unfoldable pub store_0 : ℕ → ℕ → M (Unit {0})
  store_0 cl reps =
      if test_sfence == 0
      then (timed c 0 reps (store c cl (u32 reps)))
      else if test_sfence == 1
      then (timed c 0 reps (do store c cl (u32 reps); fence sfence))
      else if test_sfence == 2
      then (timed c 0 reps (do store c cl (u32 reps); fence mfence))
      else return tt

  unfoldable pub store_0_no_pf : ℕ → ℕ → M (Unit {0})
  store_0_no_pf cl reps = do
    store c cl (u32 reps)
    (if test_sfence == 1
        then fence sfence
        else if test_sfence == 2
        then fence mfence
        else return tt)

  unfoldable pub store_0_eventually_sf : ℕ → ℕ → M (Unit {0})
  store_0_eventually_sf cl reps =
      eventually c fuel (λ cln. timed c 0 reps (do store c (cl + cln) cln; fence sfence))

  unfoldable pub store_0_eventually_mf : ℕ → ℕ → M (Unit {0})
  store_0_eventually_mf cl reps =
      eventually c fuel (λ cln. timed c 0 reps (do store c (cl + cln) cln; fence mfence))

  unfoldable pub store_0_eventually_nf : ℕ → ℕ → M (Unit {0})
  store_0_eventually_nf cl reps = eventually c fuel (λ cln. timed c 0 reps (store c (cl + cln) cln))

  -- `w[16]` is `word[0]` of the next line: a line has 16 words.
  unfoldable pub store_0_eventually_dw : ℕ → ℕ → M (Unit {0})
  store_0_eventually_dw cl reps =
      eventually c fuel
        (λ cln. timed c 0 reps (do store c (cl + cln) cln; store c (cl + cln + 1) cln))

  unfoldable pub store_0_eventually : ℕ → ℕ → M (Unit {0})
  store_0_eventually cl reps =
      if test_sfence == 0
      then store_0_eventually_nf cl reps
      else if test_sfence == 1
      then store_0_eventually_sf cl reps
      else if test_sfence == 2
      then store_0_eventually_mf cl reps
      else if test_sfence == 3
      then store_0_eventually_dw cl reps
      else return tt

  unfoldable pub store_0_eventually_pfd1_sf : ℕ → ℕ → M (Unit {0})
  store_0_eventually_pfd1_sf cl reps =
      eventually c fuel (λ cln. timed c 1 reps (do store c (cl + cln) cln; fence sfence))

  unfoldable pub store_0_eventually_pfd1_mf : ℕ → ℕ → M (Unit {0})
  store_0_eventually_pfd1_mf cl reps =
      eventually c fuel (λ cln. timed c 1 reps (do store c (cl + cln) cln; fence mfence))

  unfoldable pub store_0_eventually_pfd1_nf : ℕ → ℕ → M (Unit {0})
  store_0_eventually_pfd1_nf cl reps =
      eventually c fuel (λ cln. timed c 1 reps (store c (cl + cln) cln))

  unfoldable pub store_0_eventually_pfd1 : ℕ → ℕ → M (Unit {0})
  store_0_eventually_pfd1 cl reps =
      if test_sfence == 0
      then store_0_eventually_pfd1_nf cl reps
      else if test_sfence == 1
      then store_0_eventually_pfd1_sf cl reps
      else if test_sfence == 2
      then store_0_eventually_pfd1_mf cl reps
      else return tt
