-- ===== src/CommandLine/Cores.antt =====
-- The cores that the threads run on: `ensure_cores_array_capacity`, `assign_default_cores_array`,
-- the case of `--cores` in `main`, and the end of `parse_cores_array_option`.
use altered_ccbench_fork.Common.{
  ℕ, zero, suc, ◌+◌, ◌%◌, ◌^◌, Bool, true, false, ◌&&◌, ◌||◌, not, List, [], ◌∷◌, Option, none,
  some, if◌then◌else◌, ltb, leb, ◌==◌, update, length, Text,
}
use altered_ccbench_fork.Libc.{ℤ, pos, negsuc, skip_spaces, strtol}
use altered_ccbench_fork.CommandLine.Result.{Result, ok, ◌>>◌, refuse, invalid_cores, core_count}
use altered_ccbench_fork.CommandLine.CoreList.{to_core}

-- What `test_cores_array` points to.
pub data CoresArray : Type 0 where
  default_cores allocated : CoresArray

-- `cells` holds the entries of `allocated_cores_array`; those that were never written hold anything.
pub record Cores : Type 0 where
  pub test_cores : ℕ
  pub test_cores_array : CoresArray
  pub is_null : Bool  -- `allocated_cores_array == NULL`
  pub cells : ℕ → ℕ
  pub allocated_cores_capacity : ℕ
  pub cores_option_explicit : Bool
  pub cores_array_explicit : Bool
  pub configured_cores_array_len : ℕ

-- Before the options are read.
abbrev pub initial_cores : (ℕ → ℕ) → Cores
initial_cores memory = record {
  test_cores = 2;
  test_cores_array = default_cores;
  is_null = true;
  cells = memory;
  allocated_cores_capacity = 0;
  cores_option_explicit = false;
  cores_array_explicit = false;
  configured_cores_array_len = 0;
}

-- The entry of an array with `len` entries, and `test_cores_array[rank]`; `none` is out of bounds.
abbrev entry_below : ℕ → (ℕ → ℕ) → ℕ → Option ℕ
entry_below len cells i = if ltb i len then some (cells i) else none

abbrev pub core_in : CoresArray → Cores → ℕ → Option ℕ
core_in default_cores s rank = entry_below 3 (λ i. i) rank
core_in allocated s rank = entry_below s.allocated_cores_capacity s.cells rank

abbrev pub core_of : Cores → ℕ → Option ℕ
core_of s rank = core_in s.test_cores_array s rank

unfoldable pub ensure_capacity : ℕ → Cores → Cores
ensure_capacity required s =
    if leb required s.allocated_cores_capacity
    then s
    else record s { is_null = false; allocated_cores_capacity = required }

-- `for (idx = 0; idx < num_cores; idx++) allocated_cores_array[idx] = idx`, with `left` rounds to go.
unfoldable pub number_cells : ℕ → ℕ → (ℕ → ℕ) → ℕ → ℕ
number_cells zero idx cells = cells
number_cells (suc left) idx cells = number_cells left (idx + 1) (update cells idx idx)

unfoldable pub assign_default_cores_array : ℕ → Cores → Cores
unfolding ensure_capacity
assign_default_cores_array num_cores s =
    if not s.cores_array_explicit && (leb num_cores 3 && s.is_null)
    then record s { test_cores_array = default_cores; configured_cores_array_len = num_cores }
    else (let s' = ensure_capacity num_cores s in
        record s' {
          cells = number_cells num_cores 0 s'.cells;
          test_cores_array = allocated;
          configured_cores_array_len = num_cores;
        })

-- `value <= 0 || (unsigned long) value > UINT32_MAX`
unfoldable pub outside_cores : ℤ → Bool
outside_cores (pos n) = n == 0 || leb (2 ^ 32) n
outside_cores (negsuc n) = true

abbrev pub is_end : Text → Bool
is_end [] = true
is_end (c ∷ s) = false

-- The value of `--cores`.
unfoldable pub parse_cores : Text → Result ℕ
unfolding outside_cores
parse_cores optarg =
    let n = strtol optarg in
    do
      refuse (not n.in_range || (not n.converted || outside_cores n.value)) invalid_cores
      refuse (not (is_end (skip_spaces n.rest))) invalid_cores
      ok (to_core n.value)

-- What `--cores` does with the value.
unfoldable pub set_cores : ℕ → Cores → Result Cores
set_cores value s0 =
    let s = record s0 { test_cores = value; cores_option_explicit = true } in
    if s.cores_array_explicit
    then (do refuse (not (s.configured_cores_array_len == s.test_cores)) core_count; ok s)
    else ok (assign_default_cores_array s.test_cores s)

-- `memcpy` of the entries from `idx` on.
unfoldable pub copy_cells : List ℕ → ℕ → (ℕ → ℕ) → ℕ → ℕ
copy_cells [] idx cells = cells
copy_cells (n ∷ ns) idx cells = copy_cells ns (idx + 1) (update cells idx n)

-- What `--cores_array` does with the list.
unfoldable pub set_cores_array : List ℕ → Cores → Result Cores
unfolding ensure_capacity
set_cores_array parsed s0 = do
  refuse (s0.cores_option_explicit && not (length parsed == s0.test_cores)) core_count
  let s1 =
      if s0.cores_option_explicit then s0 else record s0 { test_cores = length parsed % 2 ^ 32 }
  let s2 = ensure_capacity (length parsed) s1
  ok (record s2 {
    cells = copy_cells parsed 0 s2.cells;
    test_cores_array = allocated;
    cores_array_explicit = true;
    configured_cores_array_len = length parsed % 2 ^ 32;
  })

-- `if (!cores_array_explicit) assign_default_cores_array(test_cores);`, behind the options.
unfoldable pub finish_cores : Cores → Cores
finish_cores s = if s.cores_array_explicit then s else assign_default_cores_array s.test_cores s
