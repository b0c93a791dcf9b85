-- ===== src/Access/Transfers.antt =====
-- What `store_0_eventually` and `load_0_eventually` return and leave in the line that `cl` points to.
use altered_ccbench_fork.Common.{ℕ, ◌+◌, ◌≤◌, ◌≡◌, inl, inr, arith, refl, ◌==◌, true, Bool-cases}
use altered_ccbench_fork.Machine.{
  Config, M, Local, Lines, Outcome, proceed, load, store, fence, Fence, lfence, sfence, mfence,
  ◌>>=◌, ◌>>◌, return, timed,
}
use altered_ccbench_fork.Access.Atomic.{eventually}
use altered_ccbench_fork.Access.Store.{
  store_0_eventually, store_0_eventually_nf, store_0_eventually_sf, store_0_eventually_mf,
}
use altered_ccbench_fork.Access.Load.{
  load_0_eventually, load_0_eventually_nf, load_0_eventually_lf, load_0_eventually_mf,
}
use altered_ccbench_fork.Access.Rounds.{Returns, IsLively, Returns-weaken}
use altered_ccbench_fork.Access.Sequential.{InRange, Frame, timed_rounds}
use altered_ccbench_fork.Access.Results.{
  load_mapped, store_mapped, still, written, loop_result, fenced, Sound,
}

module _ (c : Config) (cl reps : ℕ) (range : InRange c cl reps) (l : Local) (w : Lines)
    (lively : IsLively c l.seeds) where
  open range use {pos, small, room, sample}

  store_access :
      Sound c cl reps range l w lively (λ cln. store c (cl + cln) cln) (λ cln v. tt) (λ cln v. cln)
  store_access cln l1 w1 lt same =
      let (at, off) = written c cl reps range l w lively (cl + cln) cln w1 in
      rw (store_mapped c cl reps range l w lively (cl + cln) cln l1 w1 (omega arith))
        (still c cl reps range l w lively l1, refl, at, off)

  fenced_store :
      (f : Fence)
      → Sound c cl reps range l w lively
          (λ cln. store c (cl + cln) cln >> fence f)
          (λ cln v. tt)
          (λ cln v. cln)
  unfolding fence
  fenced_store f cln l1 w1 lt same =
      let (at, off) = written c cl reps range l w lively (cl + cln) cln w1 in
      rw (store_mapped c cl reps range l w lively (cl + cln) cln l1 w1 (omega arith))
        (record { seeds = refl; id = refl; cache_line = refl; sum = refl }, refl, at, off)

  abbrev Zeroed : Outcome (Unit {0}) → Type 0
  Zeroed = Returns (λ u l' w'. Frame c cl l w l' w' × (w' cl ≡ 0))

  zeroed :
      (op : ℕ → M (Unit {0}))
      → Sound c cl reps range l w lively op (λ cln v. tt) (λ cln v. cln)
      → Zeroed (eventually c c.fuel (λ cln. timed c 0 reps (op cln)) l w)
  zeroed op sound =
      Returns-weaken _ _ (eventually c c.fuel (λ cln. timed c 0 reps (op cln)) l w)
        (timed_rounds c cl reps range l w lively 0 (omega arith) op (λ cln v. tt) (λ cln v. cln)
          sound)
        λ a l' w' (f, e, e'). (f, e')

  -- When the lines of the stride are mapped, sample `reps` is allocated and the generator draws 0
  -- within the fuel, `store_0_eventually` with a store fence from 0 to 2 leaves 0 in line
  -- `cl`, and leaves the lines outside the stride alone.
  pub store_0_eventually_lem : c.test_sfence ≤ 2 → Zeroed (store_0_eventually c cl reps l w)
  unfolding store_0_eventually store_0_eventually_nf store_0_eventually_sf store_0_eventually_mf
  store_0_eventually_lem h = elim (Bool-cases (c.test_sfence == 0)) [
    | inl e0 ↦ rw e0 (zeroed (λ cln. store c (cl + cln) cln) store_access)
    | inr n0 ↦ rw n0 (elim (Bool-cases (c.test_sfence == 1)) [
      | inl e1 ↦
          rw e1 (zeroed (λ cln. store c (cl + cln) cln >> fence sfence) (fenced_store sfence))
      | inr n1 ↦
          let e2 : (c.test_sfence == 2) ≡ true = ground arith in
          rw (n1, e2) (zeroed (λ cln. store c (cl + cln) cln >> fence mfence) (fenced_store mfence))
    ])
  ]

  load_access :
      Sound c cl reps range l w lively (λ cln. load c (cl + cln)) (λ cln v. v) (λ cln v. v)
  load_access cln l1 w1 lt same =
      rw (load_mapped c cl reps range l w lively (cl + cln) l1 w1 (omega arith))
        (still c cl reps range l w lively l1, refl, refl, λ j ne. refl)

  fenced_load :
      (f : Fence)
      → Sound c cl reps range l w lively
          (λ cln. load c (cl + cln) >>= λ v. fence f >> return v)
          (λ cln v. v)
          (λ cln v. v)
  unfolding fence
  fenced_load f cln l1 w1 lt same =
      rw (load_mapped c cl reps range l w lively (cl + cln) l1 w1 (omega arith)) (
        record { seeds = refl; id = refl; cache_line = refl; sum = refl },
        refl,
        refl,
        λ j ne. refl,
      )

  abbrev Read : Outcome ℕ → Type 0
  Read = Returns (λ v l' w'. Frame c cl l w l' w' × (v ≡ w cl) × (w' cl ≡ w cl))

  read :
      (op : ℕ → M ℕ)
      → Sound c cl reps range l w lively op (λ cln v. v) (λ cln v. v)
      → Read (
          proceed
            (eventually c c.fuel (λ cln. timed c 0 reps (op cln)) l w)
            (λ v. fence mfence >> return v))
  unfolding fence
  read op sound =
      loop_result c cl reps range l w lively 0 op (λ cln v. v) (λ cln v. v) _ _ (omega arith) sound
        (λ l' w' f e. (fenced c cl reps range l w lively l' w' _ f, refl, e))

  -- When the lines of the stride are mapped, sample `reps` is allocated and the generator draws 0
  -- within the fuel, `load_0_eventually` with a load fence from 0 to 2 returns the value of
  -- line `cl`, and leaves it and the lines outside the stride alone.
  pub load_0_eventually_lem : c.test_lfence ≤ 2 → Read (load_0_eventually c cl reps l w)
  unfolding load_0_eventually load_0_eventually_nf load_0_eventually_lf load_0_eventually_mf
  load_0_eventually_lem h = elim (Bool-cases (c.test_lfence == 0)) [
    | inl e0 ↦ rw e0 (read (λ cln. load c (cl + cln)) load_access)
    | inr n0 ↦ rw n0 (elim (Bool-cases (c.test_lfence == 1)) [
      | inl e1 ↦
          rw e1
            (read (λ cln. load c (cl + cln) >>= λ v. fence lfence >> return v) (fenced_load lfence))
      | inr n1 ↦
          let e2 : (c.test_lfence == 2) ≡ true = ground arith in
          rw (n1, e2)
            (read (λ cln. load c (cl + cln) >>= λ v. fence mfence >> return v) (fenced_load mfence))
    ])
  ]
