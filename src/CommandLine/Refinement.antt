-- ===== src/CommandLine/Refinement.antt =====
-- The arrays hold what the options ask for.
use altered_ccbench_fork.Common.{
  ℕ, zero, suc, ◌+◌, ◌%◌, ◌^◌, ◌≤◌, ◌<◌, ◌≡◌, ◌∙◌, ap, refl, arith, Bool, true, false, ◌&&◌, not,
  List, [], ◌∷◌, Option, none, some, if◌then◌else◌, ltb, leb, ◌==◌, update, length, get_elem?,
}
use altered_ccbench_fork.CommandLine.Result.{Related, refuse, ◌>>◌, Result, ok, exit, core_count}
use altered_ccbench_fork.CommandLine.Cores.{
  allocated, Cores, initial_cores, ensure_capacity, number_cells, assign_default_cores_array,
  set_cores, copy_cells, set_cores_array,
}
use altered_ccbench_fork.CommandLine.Choice.{
  Choice, no_choice, agrees, choose_count, choose_list, threads,
}

pub number_cells_lem :
    (left idx : ℕ) (cells : ℕ → ℕ) (i : ℕ)
    → number_cells left idx cells i ≡ (if leb idx i && ltb i (idx + left) then i else cells i)
unfolding number_cells
number_cells_lem zero idx cells i = ground arith
number_cells_lem (suc left) idx cells i =
    ground (arith, number_cells_lem left (idx + 1) (update cells idx idx) i)

copy_cells_below :
    (ns : List ℕ) (idx : ℕ) (cells : ℕ → ℕ) (j : ℕ) → j < idx → copy_cells ns idx cells j ≡ cells j
unfolding copy_cells
copy_cells_below [] idx cells j lt = refl
copy_cells_below (n ∷ ns) idx cells j lt =
    ground (arith, copy_cells_below ns (idx + 1) (update cells idx n) j)

copy_cells_lem :
    (ns : List ℕ) (idx : ℕ) (cells : ℕ → ℕ) (i : ℕ)
    → i < length ns
    → some (copy_cells ns idx cells (idx + i)) ≡ get_elem? ns i
unfolding copy_cells
copy_cells_lem [] idx cells i lt = absurd (omega arith)
copy_cells_lem (n ∷ ns) idx cells zero lt =
    ground (arith, copy_cells_below ns (idx + 1) (update cells idx n) idx)
copy_cells_lem (n ∷ ns) idx cells (suc i) lt =
    let e : idx + suc i ≡ idx + 1 + i = omega arith in
    rw e (copy_cells_lem ns (idx + 1) (update cells idx n) i (omega arith))

copy_cells_at :
    (ns : List ℕ) (cells : ℕ → ℕ) (i : ℕ)
    → i < length ns
    → some (copy_cells ns 0 cells i) ≡ get_elem? ns i
copy_cells_at ns cells i lt =
    let e : i ≡ 0 + i = omega arith in
    ap (λ j. some (copy_cells ns 0 cells j)) e ∙ copy_cells_lem ns 0 cells i lt

abbrev pub is_some {ℓ} : {A : Type ℓ} → Option A → Bool
is_some none = false
is_some (some a) = true

-- The list that is given, in the allocated array.
abbrev Copied : Cores → Option (List ℕ) → Type 0
Copied s none = Unit {0}
Copied s (some l) =
    (s.test_cores_array ≡ allocated)
    × (length l ≤ s.allocated_cores_capacity)
    × (s.configured_cores_array_len ≡ length l)
    × ((i : ℕ) → i < length l → some (s.cells i) ≡ get_elem? l i)

-- The state of the program stands for what was asked.
pub record StandsFor (s : Cores) (ch : Choice) : Type 0 where
  pub option_explicit : s.cores_option_explicit ≡ is_some ch.count
  pub array_explicit : s.cores_array_explicit ≡ is_some ch.list
  pub test_cores : s.test_cores ≡ threads ch.count ch.list
  pub agree : agrees ch.count ch.list ≡ true
  pub copied : Copied s ch.list
  pub empty : s.is_null ≡ true → s.allocated_cores_capacity ≡ 0

pub initial-StandsFor : (memory : ℕ → ℕ) → StandsFor (initial_cores memory) no_choice
initial-StandsFor memory = ground arith

-- Both refuse, or both go on and the states correspond.
abbrev pub Agree : Result Cores → Result Choice → Type 0
Agree r r' = Related StandsFor r r'

assign-StandsFor :
    (s : Cores) (count : Option ℕ)
    → StandsFor s (record { count = count; list = none })
    → StandsFor (assign_default_cores_array s.test_cores s) (record { count = count; list = none })
unfolding assign_default_cores_array ensure_capacity
assign-StandsFor s count h = ground arith

Agree-else :
    (b : Bool) (x y : Result Cores) (r : Result Choice)
    → b ≡ false
    → Agree y r
    → Agree (if b then x else y) r
Agree-else true x y r e h = absurd (cc)
Agree-else false x y r e h = h

Agree-then :
    (b : Bool) (x y : Result Cores) (r : Result Choice)
    → b ≡ true
    → Agree x r
    → Agree (if b then x else y) r
Agree-then true x y r e h = h
Agree-then false x y r e h = absurd (cc)

-- The same test refuses in the program and in what was asked.
refuse-Agree :
    (b b' : Bool) (s : Cores) (ch : Choice)
    → b ≡ b'
    → (b' ≡ true → StandsFor s ch)
    → Agree (do refuse (not b) core_count; ok s) (if b' then ok ch else exit 1 core_count)
refuse-Agree true true s ch e h = h refl
refuse-Agree false false s ch e h = (refl, refl)
refuse-Agree true false s ch e h = absurd (cc)
refuse-Agree false true s ch e h = absurd (cc)

pub set_cores-Agree :
    (n : ℕ) (s : Cores) (count : Option ℕ) (list : Option (List ℕ))
    → StandsFor s (record { count = count; list = list })
    → Agree (set_cores n s) (choose_count n (record { count = count; list = list }))
unfolding set_cores choose_count
set_cores-Agree n s count none h = Agree-else s.cores_array_explicit _ _ _ h.array_explicit (
    assign-StandsFor (record s { test_cores = n; cores_option_explicit = true }) (some n)
      (record {
        option_explicit = refl;
        array_explicit = h.array_explicit;
        test_cores = refl;
        agree = refl;
        copied = tt;
        empty = h.empty;
      }))
set_cores-Agree n s count (some l) h =
    let (at, room, len, cells) = h.copied in
    Agree-then s.cores_array_explicit _ _ _ h.array_explicit (
      refuse-Agree (s.configured_cores_array_len == n) (n == length l)
        (record s { test_cores = n; cores_option_explicit = true })
        (record { count = some n; list = some l }) (ground arith)
        (λ same. record {
          option_explicit = refl;
          array_explicit = h.array_explicit;
          test_cores = ground arith;
          agree = same;
          copied = (at, room, len, cells);
          empty = h.empty;
        }))

-- The number that was asked for is the number in the state.
count-test_cores :
    (s : Cores) (n : ℕ) (list : Option (List ℕ))
    → StandsFor s (record { count = some n; list = list })
    → s.test_cores ≡ n
count-test_cores s n none h = h.test_cores
count-test_cores s n (some l) h =
    let same : (n == length l) ≡ true = h.agree in
    let e : s.test_cores ≡ length l = h.test_cores in ground arith

ensure_capacity_lem :
    (n : ℕ) (s : Cores)
    → (s.is_null ≡ true → s.allocated_cores_capacity ≡ 0)
    → (n ≤ (ensure_capacity n s).allocated_cores_capacity)
      × ((ensure_capacity n s).is_null ≡ true → (ensure_capacity n s).allocated_cores_capacity ≡ 0)
      × ((ensure_capacity n s).cores_option_explicit ≡ s.cores_option_explicit)
      × ((ensure_capacity n s).test_cores ≡ s.test_cores)
unfolding ensure_capacity
ensure_capacity_lem n s h = ground arith

-- What the option writes, where it does not refuse.
abbrev with_list : List ℕ → Cores → Cores
with_list l s = record s {
  cells = copy_cells l 0 s.cells;
  test_cores_array = allocated;
  cores_array_explicit = true;
  configured_cores_array_len = length l % 2 ^ 32;
}

with_list-StandsFor :
    (l : List ℕ) (s : Cores) (count : Option ℕ)
    → length l < 2 ^ 32
    → s.cores_option_explicit ≡ is_some count
    → s.test_cores ≡ length l
    → agrees count (some l) ≡ true
    → (s.is_null ≡ true → s.allocated_cores_capacity ≡ 0)
    → StandsFor
        (with_list l (ensure_capacity (length l) s))
        (record { count = count; list = some l })
with_list-StandsFor l s count small explicit e agree empty =
    let (room, empty', same, cores) = ensure_capacity_lem (length l) s empty in
    record {
      option_explicit = same ∙ explicit;
      array_explicit = refl;
      test_cores = cores ∙ e;
      agree = agree;
      copied = (
        refl,
        room,
        ground arith,
        λ i lt. copy_cells_at l (ensure_capacity (length l) s).cells i lt,
      );
      empty = empty';
    }

-- The option, when `--cores` was given or not.
abbrev given : Bool → List ℕ → Cores → Result Cores
given explicit l s = do
  refuse (explicit && not (length l == s.test_cores)) core_count
  ok (
      with_list l (
        ensure_capacity (length l)
          (if explicit then s else record s { test_cores = length l % 2 ^ 32 })))

given-Agree :
    (l : List ℕ) (s : Cores) (count : Option ℕ) (list : Option (List ℕ))
    → length l < 2 ^ 32
    → StandsFor s (record { count = count; list = list })
    → Agree (given (is_some count) l s) (choose_list l (record { count = count; list = list }))
unfolding choose_list
given-Agree l s none list small h =
    with_list-StandsFor l (record s { test_cores = length l % 2 ^ 32 }) none small h.option_explicit
      (ground arith) refl h.empty
given-Agree l s (some n) list small h =
    let e = count-test_cores s n list h in
    refuse-Agree (length l == s.test_cores) (n == length l)
      (with_list l (ensure_capacity (length l) s)) (record { count = some n; list = some l })
      (ground (arith, e))
      (λ same.
        with_list-StandsFor l s (some n) small h.option_explicit (ground (arith, e)) same h.empty)

set_cores_array-given :
    (l : List ℕ) (s : Cores) → set_cores_array l s ≡ given s.cores_option_explicit l s
unfolding set_cores_array
set_cores_array-given l s = refl

pub set_cores_array-Agree :
    (l : List ℕ) (s : Cores) (count : Option ℕ) (list : Option (List ℕ))
    → length l < 2 ^ 32
    → StandsFor s (record { count = count; list = list })
    → Agree (set_cores_array l s) (choose_list l (record { count = count; list = list }))
set_cores_array-Agree l s count list small h =
    let e = set_cores_array-given l s ∙ ap (λ b. given b l s) h.option_explicit in
    rw e (given-Agree l s count list small h)
