-- ===== src/SharedMemory/Opening.antt =====
-- How `cache_line_open` comes out, and what it leaves in the lines.
use altered_ccbench_fork.Common.{
  ℕ, ◌/◌, ◌-◌, ◌^◌, ◌<◌, ◌≤◌, ◌≡◌, ◌≢◌, ◌⊎◌, ap, inl, inr, refl, arith, true, false, Bool-cases,
  if◌then◌else◌, ◌==◌, ℕ_discrete, Option, none, some,
}
use altered_ccbench_fork.Machine.{Lines}
use altered_ccbench_fork.Worker.Event.{Event}
use altered_ccbench_fork.Setup.{zero_lines, is_mem_size}
use altered_ccbench_fork.Setup.Ranges.{zero_lines_lem}
use altered_ccbench_fork.Chase.{list_seeds}
use altered_ccbench_fork.Chase.Draw.{IsFair}
use altered_ccbench_fork.Chase.Cycle.{IsCycle, create_rand_list_cl-IsCycle}
use altered_ccbench_fork.SharedMemory.{
  Calls, Opened, descriptor, exists_already, refused, Obtained, exited, mapped, null, map_failed,
  object_size, writable, obtain, open_object, open_existing, map_object, Lined, ended, killed,
  opened, ones, test_cache_line_num, lines_size, filled, with_lines, cache_line_open,
}

-- The calls that end the process with status 1: a refused `shm_open`, and a refused `ftruncate` of
-- a new object.
pub data Refusal (k : Calls) (size : ℕ) : Type 0 where
  not_new : k.shm_open_new ≡ refused → Refusal k size
  not_existing :
      k.shm_open_new ≡ exists_already → ((fd : ℕ) → k.shm_open ≢ descriptor fd) → Refusal k size
  not_sized :
      (fd : ℕ) → k.shm_open_new ≡ descriptor fd → k.ftruncate fd size ≡ true → Refusal k size

-- The descriptor of the object that is mapped, and the size that it is set to: a new object gets the
-- size, one of an earlier run keeps its own.
pub data Source (k : Calls) (size fd : ℕ) : Option ℕ → Type 0 where
  fresh :
      k.shm_open_new ≡ descriptor fd → k.ftruncate fd size ≡ false → Source k size fd (some size)
  earlier : k.shm_open_new ≡ exists_already → k.shm_open ≡ descriptor fd → Source k size fd none

pub data Obtains (k : Calls) (size : ℕ) (r : Obtained) : Type 0 where
  not_opened : Refusal k size → r ≡ exited 1 → Obtains k size r
  not_mapped :
      (fd : ℕ) {set_to : Option ℕ}
      → Source k size fd set_to
      → k.mmap fd size ≡ null
      → r ≡ exited 134
      → Obtains k size r
  obtained :
      (fd : ℕ) {set_to : Option ℕ}
      → Source k size fd set_to
      → k.mmap fd size ≢ null
      → r ≡ mapped (k.mmap fd size) set_to
      → Obtains k size r

module _ (k : Calls) (size : ℕ) where
  map_object-Obtains :
      (fd : ℕ) (set_to : Option ℕ)
      → Source k size fd set_to
      → Obtains k size (map_object k size fd set_to)
  unfolding map_object
  map_object-Obtains fd set_to s = elim (ℕ_discrete (k.mmap fd size) 0) [
    | yes e ↦ not_mapped fd s e (rw e refl)
    | no ne ↦ let e : (k.mmap fd size == 0) ≡ false = ground arith in obtained fd s ne (rw e refl)
  ]

  open_existing-Obtains :
      (o : Opened)
      → k.shm_open_new ≡ exists_already
      → k.shm_open ≡ o
      → Obtains k size (open_existing k size o)
  unfolding open_existing
  open_existing-Obtains (descriptor fd) e e' = map_object-Obtains fd none (earlier e e')
  open_existing-Obtains exists_already e e' = not_opened (not_existing e (λ fd h. cc)) refl
  open_existing-Obtains refused e e' = not_opened (not_existing e (λ fd h. cc)) refl

  open_object-Obtains : (o : Opened) → k.shm_open_new ≡ o → Obtains k size (open_object k size o)
  unfolding open_object
  open_object-Obtains (descriptor fd) e = elim (Bool-cases (k.ftruncate fd size)) [
    | inl h ↦ rw h (not_opened (not_sized fd e h) refl)
    | inr h ↦ rw h (map_object-Obtains fd (some size) (fresh e h))
  ]
  open_object-Obtains exists_already e = open_existing-Obtains k.shm_open e refl
  open_object-Obtains refused e = not_opened (not_new e) refl

  pub obtain-Obtains : Obtains k size (obtain k size)
  unfolding obtain
  obtain-Obtains = open_object-Obtains k.shm_open_new refl

module _ (k : Calls) (size address : ℕ) (set_to : Option ℕ) where
  writable-true :
      writable k size address set_to ≡ true
      → (address ≢ map_failed) × (size ≤ k.page_end (object_size k set_to))
  unfolding writable
  writable-true h = ground arith

  writable-false :
      ((n : ℕ) → n ≤ k.page_end n)
      → (set_to ≡ none) ⊎ (set_to ≡ some size)
      → writable k size address set_to ≡ false
      → (address ≡ map_failed) ⊎ ((set_to ≡ none) × (k.page_end k.earlier_size < size))
  unfolding writable
  writable-false pages (inl e) h = elim (ℕ_discrete address map_failed) [
    | yes failed ↦ inl failed
    | no ne ↦ inr (e, ground (arith, ap (object_size k) e))
  ]
  writable-false pages (inr e) h = elim (ℕ_discrete address map_failed) [
    | yes failed ↦ inl failed
    | no ne ↦ absurd (ground (arith, ap (object_size k) e, pages size))
  ]

-- A mapped object is one of an earlier run or has been set to the size.
Obtains-size :
    (k : Calls) (size : ℕ) {address : ℕ} {set_to : Option ℕ}
    → Obtains k size (mapped address set_to)
    → (set_to ≡ none) ⊎ (set_to ≡ some size)
Obtains-size k size (not_opened h e) = absurd (cc e)
Obtains-size k size (not_mapped fd s z e) = absurd (cc e)
Obtains-size k size (obtained fd (fresh o f) ne e) = inr (cc e)
Obtains-size k size (obtained fd (earlier o f) ne e) = inl (cc e)

-- The lines at `address`: one cycle for LOAD_FROM_MEM_SIZE, and 0 in every line otherwise.
abbrev pub Contents : Event → ℕ → ℕ → Lines → Type 0
Contents e n address w =
    if is_mem_size e
    then ((order : ℕ → ℕ) × IsCycle address n (zero_lines n 0 ones) w order)
    else ((j : ℕ) → j < n → w j ≡ 0)

pub data Opens (k : Calls) (e : Event) (test_mem_size : ℕ) (r : Option Lined) : Type 0 where
  stops :
      (status : ℕ)
      → Obtains k (lines_size test_mem_size) (exited status)
      → r ≡ some (ended status)
      → Opens k e test_mem_size r
  kills :
      (address : ℕ) {set_to : Option ℕ}
      → Obtains k (lines_size test_mem_size) (mapped address set_to)
      → r ≡ some killed
      → (address ≡ map_failed)
        ⊎ ((set_to ≡ none) × (k.page_end k.earlier_size < lines_size test_mem_size))
      → Opens k e test_mem_size r
  holds :
      (address : ℕ) {set_to : Option ℕ} {w : Lines}
      → Obtains k (lines_size test_mem_size) (mapped address set_to)
      → address ≢ map_failed
      → lines_size test_mem_size ≤ k.page_end (object_size k set_to)
      → r ≡ some (opened address set_to w)
      → Contents e (test_mem_size / 64) address w
      → Opens k e test_mem_size r

module _ (k : Calls) (e : Event) (test_mem_size fuel : ℕ) (pages : (n : ℕ) → n ≤ k.page_end n)
    (some_lines : 0 < test_mem_size / 64) (small : test_mem_size / 64 < 2 ^ 32)
    (fair : is_mem_size e ≡ true
      → IsFair (test_mem_size / 64) fuel (test_mem_size / 64 - 1) list_seeds) where
  count : test_cache_line_num test_mem_size ≡ test_mem_size / 64
  count = omega arith

  filled-Contents :
      (address : ℕ)
      → (w : Lines) × (filled k e test_mem_size fuel address ≡ some w)
        × Contents e (test_mem_size / 64) address w
  unfolding filled
  filled-Contents address = elim (Bool-cases (is_mem_size e)) [
    | inl h ↦
        rw (h, count)
          (create_rand_list_cl-IsCycle address (test_mem_size / 64) fuel
            (zero_lines (test_mem_size / 64) 0 ones) some_lines (fair h))
    | inr h ↦
        rw (h, count)
          (
            zero_lines (test_mem_size / 64) 0 ones,
            refl,
            λ j lt. ground (arith, zero_lines_lem (test_mem_size / 64) 0 ones j),
          )
  ]

  with_lines-Opens :
      (o : Obtained)
      → Obtains k (lines_size test_mem_size) o
      → Opens k e test_mem_size (with_lines k e test_mem_size fuel o)
  unfolding with_lines
  with_lines-Opens (exited status) h = stops status h refl
  with_lines-Opens (mapped address set_to) h =
      let (w, f, contents) = filled-Contents address in
      elim (Bool-cases (writable k (lines_size test_mem_size) address set_to)) [
        | inl can ↦
            let (valid, room) = writable-true k (lines_size test_mem_size) address set_to can in
            holds address h valid room (rw (can, f) refl) contents
        | inr cannot ↦ kills address h (rw cannot refl) (
            writable-false k (lines_size test_mem_size) address set_to pages (Obtains-size k _ h)
              cannot)
      ]

  -- For a memory size of at least one line and fewer than 2^32 lines, and a generator that reaches
  -- each line for LOAD_FROM_MEM_SIZE, when an object can be written up to the end of its last page
  -- and not beyond: `cache_line_open` ends the process with status 1 when `shm_open` is refused or a
  -- new object cannot be set to the size, with status 134 when `mmap` returns NULL, and by a signal
  -- in `memset` only when `mmap` returned MAP_FAILED or the object is one of an earlier run whose
  -- last page ends before the size. Otherwise `mmap` returned another address than these, of an
  -- object whose pages hold the size, new or of an earlier run, `cache_line_open` returns that
  -- address, and every line holds 0, or for LOAD_FROM_MEM_SIZE they form one cycle from it.
  pub cache_line_open-Opens : Opens k e test_mem_size (cache_line_open k e test_mem_size fuel)
  unfolding cache_line_open
  cache_line_open-Opens = with_lines-Opens _ (obtain-Obtains k (lines_size test_mem_size))
