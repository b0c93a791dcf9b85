-- ===== src/Machine.antt =====
-- What the measured operations of src/ccbench.c run on: the options in force, the shared cache
-- lines, the variables of one thread, and the timing macros `PFDI` and `PFDO` of include/pfd.h.
-- Memory is sequentially consistent: a fence leaves the state as it is and is recorded in the order
-- of execution. The cycle counter is a parameter, one value for each reading.
use altered_ccbench_fork.Common.{ℕ, ◌+◌, ◌-◌, ◌%◌, ◌^◌, Bool, if◌then◌else◌, ltb, update, List, ◌∷◌}
use altered_ccbench_fork.Random.{Seeds, xorshf96, clrand_mask}

-- The `test_*` variables that the operations read. `ticks` is the value of the n-th reading of
-- the cycle counter of the thread, and `fuel` bounds the rounds of the `do … while (cln > 0)` loops.
pub record Config : Type 0 where
  pub test_cores : ℕ
  pub test_reps : ℕ
  pub test_flush : Bool
  pub test_stride : ℕ
  pub test_ao_success : Bool
  pub test_cache_line_num : ℕ
  pub test_lfence : ℕ
  pub test_sfence : ℕ
  pub pfd_correction : ℕ
  pub ticks : ℕ → ℕ
  pub fuel : ℕ
  pub base : ℕ  -- the address of the mapped lines

pub data Fence : Type 0 where
  lfence sfence mfence pause nop : Fence
  clflush : ℕ → Fence

-- `word[0]` of each cache line; in the test LOAD_FROM_MEM_SIZE, the uint64_t at its start. The
-- operations measured touch no other word of a line.
abbrev pub Lines : Type 0
Lines = ℕ → ℕ

-- The variables of one thread. `cache_line` is the index of the line that the pointer of that name
-- points to; `fences` holds the fences and flushes issued, the latest first.
pub record Local : Type 0 where
  pub id : ℕ
  pub seeds : Seeds
  pub readings : ℕ
  pub pfd_s : ℕ → ℕ
  pub pfd_store : ℕ → ℕ → ℕ
  pub cache_line : ℕ
  pub sum : ℕ
  pub fences : List Fence

-- `fault` is an access outside the mapped lines or the allocated samples; `unfinished` means that
-- the fuel of a loop ran out.
pub data Outcome (A : Type 0) : Type 0 where
  ok : A → Local → Lines → Outcome A
  fault unfinished : Outcome A

abbrev pub M : Type 0 → Type 0
M A = Local → Lines → Outcome A

abbrev pub proceed : {A B : Type 0} → Outcome A → (A → M B) → Outcome B
proceed (ok a l w) f = f a l w
proceed fault f = fault
proceed unfinished f = unfinished

infixl 5 ◌>>=◌ ◌>>◌
abbrev pub ◌>>=◌ : {A B : Type 0} → M A → (A → M B) → M B
◌>>=◌ m f l w = proceed (m l w) f

abbrev pub ◌>>◌ : {B : Type 0} → M (Unit {0}) → M B → M B
◌>>◌ m k = m >>= λ _. k

abbrev pub return : {A : Type 0} → A → M A
return a l w = ok a l w

abbrev pub u8 : ℕ → ℕ
u8 n = n % 2 ^ 8

abbrev pub u32 : ℕ → ℕ
u32 n = n % 2 ^ 32

abbrev pub u64 : ℕ → ℕ
u64 n = n % 2 ^ 64

unfoldable pub fence : Fence → M (Unit {0})
fence f l w = ok tt (record l { fences = f ∷ l.fences }) w

module _ (c : Config) where
  open c use {test_cache_line_num, test_reps, test_stride, pfd_correction, ticks}

  -- `cl[i].word[0]`, read and written.
  unfoldable pub load : ℕ → M ℕ
  load i l w = if ltb i test_cache_line_num then ok (w i) l w else fault

  unfoldable pub store : ℕ → ℕ → M (Unit {0})
  store i v l w = if ltb i test_cache_line_num then ok tt l (update w i v) else fault

  -- `getticks()`
  unfoldable pub getticks : M ℕ
  getticks l w = ok (u64 (ticks l.readings)) (record l { readings = l.readings + 1 }) w

  -- `PFDI(store)`
  unfoldable pub pfdi : ℕ → M (Unit {0})
  unfolding getticks
  pfdi s = do now ← getticks; λ l w. ok tt (record l { pfd_s = update l.pfd_s s now }) w

  -- `PFDO(store, entry)`: `calloc` gave each of the two stores `test_reps` entries.
  unfoldable pub pfdo : ℕ → ℕ → M (Unit {0})
  unfolding getticks
  pfdo s entry = do
    now ← getticks
    λ l w.
        if ltb s 2
        then (if ltb entry test_reps
            then ok tt
                (record l {
                  pfd_store = update l.pfd_store s (
                      update (l.pfd_store s) entry
                        (u64 (u64 (now + 2 ^ 64 - l.pfd_s s) + 2 ^ 64 - u64 pfd_correction)));
                })
                w
            else fault)
        else fault

  -- `clrand()`
  unfoldable pub clrand : M ℕ
  clrand l w =
      let s = xorshf96 l.seeds in ok (clrand_mask test_stride s.z) (record l { seeds = s }) w

  -- `PFDI(s)`, the timed statements, `PFDO(s, reps)`.
  abbrev pub timed : ℕ → ℕ → {A : Type 0} → M A → M A
  timed s reps op = do pfdi s; a ← op; pfdo s reps; return a
