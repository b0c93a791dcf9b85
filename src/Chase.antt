-- ===== src/Chase.antt =====
-- src/ccbench.c: `create_rand_list_cl`, which links the cache lines into a random cycle, and the
-- `load_next` family, which follows it. A pointer is an address; line `i` starts at `base + 64 i`.
-- The code counts in uint64_t, eight to a line: its `idx` and `nxt` are eight times the line
-- indices below.
pub mod Draw
pub mod Linked
pub mod Cycle
pub mod Visit
use altered_ccbench_fork.Common.{
  ℕ, zero, suc, ◌+◌, ◌-◌, ◌*◌, ◌/◌, ◌%◌, ◌^◌, Bool, true, false, if◌then◌else◌, ltb, leb, ◌==◌,
  update, ◌&&◌, Option, none, some,
}
use altered_ccbench_fork.Random.{Seeds, xorshf96}
use altered_ccbench_fork.Machine.{
  Config, M, ◌>>=◌, ◌>>◌, return, load, pfdi, getticks, fence, lfence, mfence, Lines, ok, fault,
  u64,
}

-- The address of line `i`, and the line that starts at an address.
abbrev pub address : ℕ → ℕ → ℕ
address base i = base + 64 * i

unfoldable pub line_at : ℕ → ℕ → M ℕ
line_at base a l w =
    if leb base a && ((a - base) % 64 == 0) then ok ((a - base) / 64) l w else fault

-- `i++` of an int, which overflows behind 2^31 - 1.
unfoldable pub next_int : ℕ → M ℕ
next_int i l w = if ltb (i + 1) (2 ^ 31) then ok (i + 1) l w else fault

module _ (c : Config) where
  open c use {test_cache_line_num, test_lfence, test_reps, pfd_correction, base}

  -- `PFDOR(store, entry, reps)`, for store 0.
  unfoldable pub pfdor : ℕ → ℕ → M (Unit {0})
  unfolding getticks
  pfdor entry reps = do
    now ← getticks c
    λ l w.
        if ltb entry test_reps && ltb 0 reps
        then ok tt
            (record l {
              pfd_store = update l.pfd_store 0 (
                  update (l.pfd_store 0) entry
                    (u64 (u64 (now + 2 ^ 64 - l.pfd_s 0) + 2 ^ 64 - u64 pfd_correction) / reps));
            })
            w
        else fault

  -- `for (; i < do_reps; i++) cl = (uint64_t*) *cl;` with `left` rounds to go, and with a fence in
  -- each round or none.
  unfoldable pub follow : M (Unit {0}) → ℕ → ℕ → ℕ → M ℕ
  unfolding next_int
  follow each zero i cl l w = ok cl l w
  follow each (suc left) i cl l w =
      (load c cl >>= λ a.
      line_at base a >>= λ k. each >>= λ u. next_int i >>= λ i'. follow each left i' k)
        l w

  unfoldable pub load_next_with : M (Unit {0}) → ℕ → ℕ → M ℕ
  load_next_with each cl reps = do
    pfdi c 0
    last ← follow each test_cache_line_num 0 cl
    pfdor reps test_cache_line_num
    load c last

  unfoldable pub load_next_lf : ℕ → ℕ → M ℕ
  load_next_lf = load_next_with (fence lfence)

  unfoldable pub load_next_mf : ℕ → ℕ → M ℕ
  load_next_mf = load_next_with (fence mfence)

  unfoldable pub load_next_nf : ℕ → ℕ → M ℕ
  load_next_nf = load_next_with (return tt)

  unfoldable pub load_next : ℕ → ℕ → M ℕ
  load_next cl reps =
      if test_lfence == 0
      then load_next_nf cl reps
      else if test_lfence == 1
      then load_next_lf cl reps
      else if test_lfence == 2
      then load_next_mf cl reps
      else return 0

-- The seeds of `create_rand_list_cl`.
abbrev pub list_seeds : Seeds
list_seeds = record { x = 0xB9E4E2F1F1E2E3D5; y = 0xF1E2E3D5B9E4E2F1; z = 0x9B3A0FA212342345 }

-- What the loops of `create_rand_list_cl` change. The memory is that of the list.
pub record Linking : Type 0 where
  pub used : ℕ → Bool
  pub seeds : Seeds
  pub idx : ℕ
  pub list : Lines

-- `do { nxt = my_random(…) % n } while (used[nxt])`; `none` when the fuel runs out.
unfoldable pub draw_unused : ℕ → ℕ → (ℕ → Bool) → Seeds → Option (ℕ × Seeds)
draw_unused n zero used s = none
draw_unused n (suc fuel) used s =
    let s' = xorshf96 s in
    let nxt = s'.z % n in
    elim (used nxt) [ true ↦ draw_unused n fuel used s' | false ↦ some (nxt, s') ]

-- One round of `while (used_num < n - 1)`.
unfoldable pub link_one : ℕ → ℕ → ℕ → Linking → Option Linking
link_one base n fuel k =
    let used = update k.used k.idx true in
    elim (draw_unused n fuel used k.seeds) [
      | none ↦ none
      | some (nxt, s) ↦ some (record {
        used = used;
        seeds = s;
        idx = nxt;
        list = update k.list k.idx (address base nxt);
      })
    ]

unfoldable pub link_all : ℕ → ℕ → ℕ → ℕ → Linking → Option Linking
link_all base n fuel zero k = some k
link_all base n fuel (suc left) k = elim (link_one base n fuel k) [
  | none ↦ none
  | some k' ↦ link_all base n fuel left k'
]

-- `create_rand_list_cl`, for a list of `n` lines, of which there is at least one.
unfoldable pub create_rand_list_cl : ℕ → ℕ → ℕ → Lines → Option Lines
create_rand_list_cl base n fuel w =
    elim (link_all base n fuel (n - 1)
      (record { used = λ i. false; seeds = list_seeds; idx = 0; list = w })) [
        | none ↦ none
        | some k ↦ some (update k.list k.idx (address base 0))
      ]
