-- ===== src/Access/Results.antt =====
-- What `cas_0_eventually`, `fai`, `tas` and `swap` return and leave in the line that `cl` points to.
use altered_ccbench_fork.Common.{
  ℕ, ◌+◌, ◌-◌, ◌%◌, ◌<◌, ◌≡◌, ◌≢◌, ◌∙◌, lt→ltb, inl, inr, List, arith, refl, if◌then◌else◌, ◌==◌,
  update, update_self, update_ne, Bool-cases,
}
use altered_ccbench_fork.Machine.{
  Config, M, Local, Lines, ok, proceed, load, store, fence, Fence, u32, timed,
}
use altered_ccbench_fork.Access.Atomic.{
  eventually, cas_u32, fai_u32, tas_u8, swap_u32, cas_0_eventually, expected, replacement, truth,
  fai, tas, swap,
}
use altered_ccbench_fork.Access.Rounds.{Returns, IsLively, Returns-proceed}
use altered_ccbench_fork.Access.Sequential.{InRange, Frame, Quiet, Accesses, timed_rounds}

module _ (c : Config) (cl reps : ℕ) (range : InRange c cl reps) (l : Local) (w : Lines)
    (lively : IsLively c l.seeds) where
  open range use {pos, small, room, sample}

  abbrev pub Sound : {A : Type 0} → (ℕ → M A) → (ℕ → ℕ → A) → (ℕ → ℕ → ℕ) → Type 0
  Sound = Accesses c cl reps range l w lively

  pub load_mapped :
      (i : ℕ) (l1 : Local) (w1 : Lines)
      → i < c.test_cache_line_num
      → load c i l1 w1 ≡ ok (w1 i) l1 w1
  unfolding load
  load_mapped i l1 w1 lt = rw (lt→ltb i c.test_cache_line_num lt)

  pub store_mapped :
      (i v : ℕ) (l1 : Local) (w1 : Lines)
      → i < c.test_cache_line_num
      → store c i v l1 w1 ≡ ok tt l1 (update w1 i v)
  unfolding store
  store_mapped i v l1 w1 lt = rw (lt→ltb i c.test_cache_line_num lt)

  pub still : (l1 : Local) → Quiet l1 l1
  still l1 = record { seeds = refl; id = refl; cache_line = refl; sum = refl }

  -- A read of the line and a write to it, of a value that may depend on the one read.
  pub written :
      (i v : ℕ) (w1 : Lines) → (update w1 i v i ≡ v) × ((j : ℕ) → j ≢ i → update w1 i v j ≡ w1 j)
  written i v w1 = (update_self w1 i v, update_ne w1 i v)

  cas_access :
      (o o' : ℕ)
      → Sound (λ cln. cas_u32 c (cl + cln) o o') (λ cln v. v) (λ cln v. if v == o then o' else v)
  unfolding cas_u32
  cas_access o o' cln l1 w1 lt same =
      let i = cl + cln in
      let (at, off) = written i o' w1 in
      rw (load_mapped i l1 w1 (omega arith)) (elim (Bool-cases (w1 i == o)) [
        | inl hit ↦ rw (hit, store_mapped i o' l1 w1 (omega arith)) (still l1, refl, at, off)
        | inr miss ↦ rw miss (still l1, refl, refl, λ j ne. refl)
      ])

  fai_access : Sound (λ cln. fai_u32 c (cl + cln)) (λ cln v. v) (λ cln v. u32 (v + 1))
  unfolding fai_u32
  fai_access cln l1 w1 lt same =
      let i = cl + cln in
      let (at, off) = written i (u32 (w1 i + 1)) w1 in
      rw (load_mapped i l1 w1 (omega arith), store_mapped i (u32 (w1 i + 1)) l1 w1 (omega arith))
        (still l1, refl, at, off)

  tas_access : Sound (λ cln. tas_u8 c (cl + cln)) (λ cln v. v % 256) (λ cln v. v - v % 256 + 255)
  unfolding tas_u8
  tas_access cln l1 w1 lt same =
      let i = cl + cln in
      let v = w1 i - w1 i % 256 + 255 in
      let (at, off) = written i v w1 in
      rw (load_mapped i l1 w1 (omega arith), store_mapped i v l1 w1 (omega arith))
        (still l1, refl, at, off)

  swap_access : Sound (λ cln l1 w1. swap_u32 c (cl + cln) l1.id l1 w1) (λ cln v. v) (λ cln v. l.id)
  unfolding swap_u32
  swap_access cln l1 w1 lt same =
      let i = cl + cln in
      let (at, off) = written i l1.id w1 in
      rw (load_mapped i l1 w1 (omega arith), store_mapped i l1.id l1 w1 (omega arith))
        (still l1, refl, at ∙ same, off)

  -- What follows such a loop, from the value of line `cl` before it.
  pub loop_result :
      {A B : Type 0} (s : ℕ) (op : ℕ → M A) (val : ℕ → ℕ → A) (new : ℕ → ℕ → ℕ) (k : A → M B)
      (Q : B → Local → Lines → Type 0)
      → s < 2
      → Sound op val new
      → ((l' : Local) (w' : Lines)
          → Frame c cl l w l' w'
          → w' cl ≡ new 0 (w cl)
          → Returns Q (k (val 0 (w cl)) l' w'))
      → Returns Q (proceed (eventually c c.fuel (λ cln. timed c s reps (op cln)) l w) k)
  loop_result s op val new k Q lt sound then_ =
      Returns-proceed
        (λ a l' w'. Frame c cl l w l' w' × (a ≡ val 0 (w cl)) × (w' cl ≡ new 0 (w cl))) Q
        (eventually c c.fuel (λ cln. timed c s reps (op cln)) l w) k
        (timed_rounds c cl reps range l w lively s lt op val new sound)
        λ a l' w' (f, e, e'). rw e (then_ l' w' f e')

  pub fenced :
      (l' : Local) (w' : Lines) (fs : List Fence)
      → Frame c cl l w l' w'
      → Frame c cl l w (record l' { fences = fs }) w'
  fenced l' w' fs f = record {
    outside = f.outside;
    same_id = f.same_id;
    same_line = f.same_line;
    same_sum = f.same_sum;
    lively = f.lively;
  }

  -- When the lines of the stride are mapped, sample `reps` is allocated and the generator draws 0
  -- within the fuel, `cas_0_eventually` returns 1 and replaces the value of line `cl`
  -- exactly when that value is the expected one, and leaves the lines outside the stride alone.
  pub cas_0_eventually_lem :
      Returns
        (λ r l' w'.
          Frame c cl l w l' w'
          × (r ≡ truth (w cl == expected c reps))
          × (w' cl ≡ (if w cl == expected c reps then replacement c reps else w cl)))
        (cas_0_eventually c cl reps l w)
  unfolding cas_0_eventually
  cas_0_eventually_lem =
      loop_result 0 _ (λ cln v. v) (λ cln v. if v == expected c reps then replacement c reps else v)
        _ _ (omega arith) (cas_access (expected c reps) (replacement c reps))
        (λ l' w' f e. (f, refl, e))

  -- When the lines of the stride are mapped, sample `reps` is allocated and the generator draws 0
  -- within the fuel, `fai` returns the value of line `cl` and increments it modulo
  -- 2 ^ 32, and leaves the lines outside the stride alone.
  pub fai_lem :
      Returns
        (λ r l' w'. Frame c cl l w l' w' × (r ≡ w cl) × (w' cl ≡ u32 (w cl + 1)))
        (fai c cl reps l w)
  unfolding fai
  fai_lem =
      timed_rounds c cl reps range l w lively 0 (omega arith) _ (λ cln v. v) (λ cln v. u32 (v + 1))
        fai_access

  -- When the lines of the stride are mapped, sample `reps` is allocated and the generator draws 0
  -- within the fuel, `tas` returns 0 if the low byte of line `cl` is 255 and 1 otherwise,
  -- sets that byte to 255, and leaves the lines outside the stride alone.
  pub tas_lem :
      Returns
        (λ r l' w'.
          Frame c cl l w l' w'
          × (r ≡ (if w cl % 256 == 255 then 0 else 1))
          × (w' cl ≡ w cl - w cl % 256 + 255))
        (tas c cl reps l w)
  unfolding tas
  tas_lem =
      loop_result 0 _ (λ cln v. v % 256) (λ cln v. v - v % 256 + 255) _ _ (omega arith) tas_access
        (λ l' w' f e. (f, refl, e))

  -- When the lines of the stride are mapped, sample `reps` is allocated and the generator draws 0
  -- within the fuel, `swap` returns the value of line `cl` and stores the thread's ID there,
  -- and leaves the lines outside the stride alone.
  pub swap_lem :
      Returns (λ r l' w'. Frame c cl l w l' w' × (r ≡ w cl) × (w' cl ≡ l.id)) (swap c cl reps l w)
  unfolding swap fence
  swap_lem =
      loop_result 0 _ (λ cln v. v) (λ cln v. l.id) _ _ (omega arith) swap_access
        (λ l' w' f e. (fenced l' w' _ f, refl, e))
