-- ===== src/Chase/Visit.antt =====
-- `load_next` on the cycle that `create_rand_list_cl` builds.
use altered_ccbench_fork.Common.{
  ℕ, zero, suc, ◌+◌, ◌-◌, ◌^◌, ◌≤◌, ◌<◌, ◌≡◌, ◌∙◌, true, arith, refl, ap, if◌then◌else◌, Bool-cases,
  inl, inr, dec_lt, ltb, lt→ltb, le→ltb, ◌==◌, subst, update, ◌∷◌,
}
use altered_ccbench_fork.Machine.{
  Config, M, Lines, Local, Outcome, ok, load, fence, Fence, lfence, mfence, return, pfdi, getticks,
  u64, ◌>>=◌,
}
use altered_ccbench_fork.Access.Rounds.{Returns, Returns-proceed}
use altered_ccbench_fork.Chase.{
  address, line_at, next_int, follow, pfdor, load_next, load_next_with, load_next_lf, load_next_mf,
  load_next_nf,
}
use altered_ccbench_fork.Chase.Cycle.{IsCycle}

-- What stands between two loads touches no line.
abbrev IsQuiet : M (Unit {0}) → Type 0
IsQuiet each = (l : Local) (w : Lines) → (l' : Local) × (each l w ≡ ok tt l' w)

next_int-suc : (i : ℕ) (l : Local) (w : Lines) → i + 1 < 2 ^ 31 → next_int i l w ≡ ok (suc i) l w
unfolding next_int
next_int-suc i l w lt = ground arith

module _ (base i : ℕ) where
  line_at-address : (l : Local) (w : Lines) → line_at base (address base i) l w ≡ ok i l w
  unfolding line_at
  line_at-address l w = ground arith

module _ (c : Config) (before after : Lines) (order : ℕ → ℕ)
    (cycle : IsCycle c.base c.test_cache_line_num before after order) where
  open c use {base, test_cache_line_num}

  -- Where the walk stands after `i` loads.
  abbrev place : ℕ → ℕ
  place i = if ltb i test_cache_line_num then order i else 0

  load-place :
      (i : ℕ) (l : Local)
      → i < test_cache_line_num
      → load c (place i) l after ≡ ok (address base (place (suc i))) l after
  unfolding load
  load-place i l lt =
      rw (lt→ltb i test_cache_line_num lt, lt→ltb (order i) test_cache_line_num (cycle.within i lt))
        (ap (λ a. ok a l after) target)
    where
      target : after (order i) ≡ address base (place (suc i))
      target = elim (dec_lt (suc i) test_cache_line_num) [
        | yes more ↦ rw (lt→ltb (suc i) test_cache_line_num more) (cycle.linked i more)
        | no done ↦
            let e : i ≡ test_cache_line_num - 1 = omega arith in
            rw (le→ltb (suc i) test_cache_line_num (omega arith))
              (ap (λ k. after (order k)) e ∙ cycle.closed)
      ]

  follow_rest :
      (each : M (Unit {0}))
      → IsQuiet each
      → test_cache_line_num < 2 ^ 31
      → (left i : ℕ) (l : Local) → i + left ≡ test_cache_line_num
      → Returns (λ x l' w'. (x ≡ 0) × (w' ≡ after)) (follow c each left i (place i) l after)
  unfolding follow
  follow_rest each quiet few zero i l e =
      rw (le→ltb i test_cache_line_num (omega arith)) (refl, refl)
  follow_rest each quiet few (suc left) i l e =
      let (l', q) = quiet l after in
      rw
        (
          load-place i l (omega arith),
          line_at-address base (place (suc i)) l after,
          q,
          next_int-suc i l' after (omega (arith, few, e)),
        )
        (follow_rest each quiet few left (suc i) l' (omega arith))

  module _ (reps : ℕ) (sample : reps < c.test_reps) (lines : 0 < test_cache_line_num)
      (few : test_cache_line_num < 2 ^ 31) where
    -- The walk ends at the line that it started from.
    abbrev Back : Outcome ℕ → Type 0
    Back = Returns (λ v l' w'. (v ≡ after 0) × (w' ≡ after))

    measured :
        (last : ℕ) (l : Local) (w : Lines)
        → last ≡ 0
        → w ≡ after
        → Back ((pfdor c reps test_cache_line_num >>= λ u. load c last) l w)
    unfolding pfdor load getticks
    measured last l w e e' =
        rw (e, e', lt→ltb reps c.test_reps sample, lt→ltb 0 test_cache_line_num lines)
          (rw (lt→ltb 0 test_cache_line_num lines) (refl, refl))

    walk :
        (each : M (Unit {0}))
        → IsQuiet each
        → (l : Local) → Back (load_next_with c each 0 reps l after)
    unfolding load_next_with pfdi getticks
    walk each quiet l =
        let start : place 0 ≡ 0 = rw (lt→ltb 0 test_cache_line_num lines) (cycle.first) in
        let now = u64 (c.ticks l.readings) in
        let s = record l { readings = l.readings + 1; pfd_s = update l.pfd_s 0 now } in
        Returns-proceed (λ x l' w'. (x ≡ 0) × (w' ≡ after))
          (λ v l' w'. (v ≡ after 0) × (w' ≡ after)) (follow c each test_cache_line_num 0 0 s after)
          _
          (subst
            (λ x.
              Returns (λ x l' w'. (x ≡ 0) × (w' ≡ after))
                (follow c each test_cache_line_num 0 x s after))
            start (follow_rest each quiet few test_cache_line_num 0 s (omega arith)))
          (λ x l' w' (e, e'). measured x l' w' e e')

    fence-IsQuiet : (f : Fence) → IsQuiet (fence f)
    unfolding fence
    fence-IsQuiet f l w = (record l { fences = f ∷ l.fences }, refl)

    -- On a cycle like that of `create_rand_list_cl`, with a load fence from 0 to 2, a sample
    -- allocated for `reps` and 1 to 2^31 - 1 lines, `load_next` from line 0 faults nowhere, its
    -- counter included, returns what line 0 holds, and writes no line.
    pub load_next_lem : c.test_lfence ≤ 2 → (l : Local) → Back (load_next c 0 reps l after)
    unfolding load_next load_next_nf load_next_lf load_next_mf
    load_next_lem h l = elim (Bool-cases (c.test_lfence == 0)) [
      | inl e0 ↦ rw e0 (walk (return tt) (λ l w. (l, refl)) l)
      | inr n0 ↦ rw n0 (elim (Bool-cases (c.test_lfence == 1)) [
        | inl e1 ↦ rw e1 (walk (fence lfence) (fence-IsQuiet lfence) l)
        | inr n1 ↦
            let e2 : (c.test_lfence == 2) ≡ true = ground arith in
            rw (n1, e2) (walk (fence mfence) (fence-IsQuiet mfence) l)
      ])
    ]
