-- ===== src/Setup/Ranges.antt =====
-- What the assertions of `main` guarantee to the measured operations.
use native.Mathlib.Nat.{mul-le-mul_right}
use altered_ccbench_fork.Common.{
  ℕ, zero, suc, ◌+◌, ◌*◌, ◌/◌, ◌^◌, ◌<◌, ◌≤◌, ◌≡◌, Bool, true, false, if◌then◌else◌, ltb, leb, ◌&&◌,
  some, none, arith, refl, update, ◌==◌,
}
use altered_ccbench_fork.Machine.{Config, Lines, u32}
use altered_ccbench_fork.Access.Sequential.{InRange}
use altered_ccbench_fork.Worker.Event.{Event}
use altered_ccbench_fork.Setup.{
  Options, configure, settings, asserted, is_checked, is_mem_size, fence_levels, zero_lines,
}

-- Every fence level sets `test_lfence` to at most 2 and `test_sfence` to at most 2, but for level 9,
-- which sets it to at most 3.
pub fence_levels-le :
    (f : ℕ) → ((fence_levels f).0 ≤ 2) × ((fence_levels f).1 ≤ (if f == 9 then 3 else 2))
unfolding fence_levels
fence_levels-le f = ground arith

-- The loop of `cache_line_open` from line `cl` sets `left` lines to 0 and no other.
pub zero_lines_lem :
    (left cl : ℕ) (w : Lines) (j : ℕ)
    → zero_lines left cl w j ≡ (if leb cl j && ltb j (cl + left) then 0 else w j)
unfolding zero_lines
zero_lines_lem zero cl w j = ground arith
zero_lines_lem (suc left) cl w j = ground (arith, zero_lines_lem left (cl + 1) (update w cl 0) j)

asserted_bound :
    (e : Event) (flush : Bool) (reps stride lines : ℕ)
    → asserted e flush reps stride lines ≡ true
    → is_mem_size e ≡ false
    → stride < lines
unfolding asserted
asserted_bound e flush reps stride lines h other = ground arith

asserted_product :
    (e : Event) (reps stride lines : ℕ)
    → asserted e false reps stride lines ≡ true
    → is_checked e ≡ true
    → u32 (reps * stride) ≤ lines
unfolding asserted
asserted_product e reps stride lines h checked = ground arith

chosen : (b : Bool) (x y : Config) → (if b then some x else none) ≡ some y → (b ≡ true) × (y ≡ x)
chosen true x y h = (refl, cc h)
chosen false x y h = absurd (cc h)

module _ (o : Options) (pfd_correction : ℕ) (ticks : ℕ → ℕ) (fuel base : ℕ) (c : Config)
    (accepted : configure o pfd_correction ticks fuel base ≡ some c) (pos : 1 ≤ o.test_stride)
    (small : o.test_stride < 2 ^ 32) where
  configured :
      (asserted o.test_test o.test_flush o.test_reps o.test_stride (u32 (o.test_mem_size / 64))
        ≡ true)
      × (c ≡ settings o pfd_correction ticks fuel base)
  unfolding configure
  configured =
      chosen
        (asserted o.test_test o.test_flush o.test_reps o.test_stride (u32 (o.test_mem_size / 64)))
        (settings o pfd_correction ticks fuel base) c accepted

  -- When `main` accepts the options of a test other than LOAD_FROM_MEM_SIZE, with a stride
  -- from 1 to 2 ^ 32 - 1, the `test_stride` lines from the first one on are mapped and the
  -- sample of every repetition is allocated.
  pub configure-InRange :
      is_mem_size o.test_test ≡ false → (reps : ℕ) → reps < c.test_reps → InRange c 0 reps
  configure-InRange other reps lt =
      let (h, e) = configured in
      let bound =
        asserted_bound o.test_test o.test_flush o.test_reps o.test_stride
          (u32 (o.test_mem_size / 64)) h other in
      record { pos = rw e pos; small = rw e small; room = rw e (omega (arith, bound)); sample = lt }

  -- When `main` accepts the options of STORE_ON_EXCLUSIVE, STORE_ON_INVALID, LOAD_FROM_INVALID,
  -- LOAD_FROM_EXCLUSIVE or LOAD_FROM_SHARED without flushes, with a stride from 1 to 2 ^ 32 - 1
  -- and a product of repetitions and stride below 2^32, then in every repetition the sample is
  -- allocated and the `test_stride` lines are mapped that start where `cache_line` stands after
  -- moving on by `test_stride` in each repetition before.
  pub configure-stepped :
      is_checked o.test_test ≡ true
      → o.test_flush ≡ false
      → o.test_reps * o.test_stride < 2 ^ 32
      → (reps : ℕ) → reps < c.test_reps
      → InRange c (reps * c.test_stride) reps
  configure-stepped checked still fits reps lt =
      let (h, e) = configured in
      let stride = o.test_stride in
      let bound =
        asserted_product o.test_test o.test_reps stride (u32 (o.test_mem_size / 64)) (rw still at h)
          checked in
      let below : suc reps ≤ o.test_reps = rw e at lt in
      let steps : suc reps * stride ≤ o.test_reps * stride = mul-le-mul_right stride below in
      record {
        pos = rw e pos;
        small = rw e small;
        room = rw e (omega (arith, bound, steps));
        sample = lt;
      }
