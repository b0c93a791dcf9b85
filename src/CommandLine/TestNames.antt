-- ===== src/CommandLine/TestNames.antt =====
-- What `parse_test_option` accepts, and that it accepts every name of the table.
use altered_ccbench_fork.Common.{
  ℕ, zero, suc, ◌+◌, ◌<◌, ◌≡◌, ◌∙◌, ◌⊎◌, inl, inr, ap, sym, subst, refl, arith, Bool, true, false,
  ◌&&◌, Bool-cases, then_case, else_case, List, [], ◌∷◌, some, if◌then◌else◌, leb, ◌==◌, length,
  get_elem?, Text, map,
}
use altered_ccbench_fork.Libc.{ℤ, pos, negsuc, strtol, to_lower, same_letters}
use altered_ccbench_fork.Libc.Letters.{is_lower, strtol-letter, same_letters-eq}
use altered_ccbench_fork.CommandLine.Result.{Message, out_of_range, Result, ok, exit, fault}
use altered_ccbench_fork.CommandLine.TestOption.{
  num_events, moesi_type_des, in_table, find_name, is_empty, parse_test_option,
}

-- The name at `e` of the table, in any case of its letters.
abbrev pub IsName : List Text → Text → ℕ → Type 0
IsName names arg e =
    (name : Text) × (get_elem? names e ≡ some name) × (same_letters arg name ≡ true)

if_true {ℓ} : {A : Type ℓ} (b : Bool) (x y : A) → b ≡ true → (if b then x else y) ≡ x
if_true b x y e = then_case (λ z. z ≡ x) b x y e refl

if_false {ℓ} : {A : Type ℓ} (b : Bool) (x y : A) → b ≡ false → (if b then x else y) ≡ y
if_false b x y e = else_case (λ z. z ≡ y) b x y e refl

ok_inj : (m n : ℕ) → ok m ≡ ok n → m ≡ n
ok_inj m n h = cc

exit-ne-ok : {n e : ℕ} {m : Message} → exit n m ≡ ok e → ⊥
exit-ne-ok h = cc

is_empty-eq : (s : Text) → is_empty s ≡ true → s ≡ []
is_empty-eq [] h = refl
is_empty-eq (c ∷ s) h = absurd (cc)

find_name-accepts :
    (arg : Text) (idx : ℕ) (names : List Text) (e : ℕ)
    → find_name arg idx names ≡ ok e
    → (i : ℕ) × (e ≡ idx + i) × (i < length names) × IsName names arg i
unfolding find_name
find_name-accepts arg idx [] e h = absurd (cc)
find_name-accepts arg idx (name ∷ names) e h = elim (Bool-cases (same_letters arg name)) [
  | inl same ↦
      let here : idx ≡ e =
        ok_inj _ _ (
          sym (if_true (same_letters arg name) (ok idx) (find_name arg (idx + 1) names) same)
          ∙ h) in
      (0, omega (arith, here), omega arith, (name, refl, same))
  | inr other ↦
      let (i, e', lt, there) = find_name-accepts arg (idx + 1) names e (
        sym (if_false (same_letters arg name) (ok idx) (find_name arg (idx + 1) names) other)
        ∙ h) in
      (suc i, omega (arith, e'), omega (arith, lt), there)
]

in_table-accepts : (v : ℤ) (e : ℕ) → in_table v ≡ ok e → (v ≡ pos e) × (e < num_events)
unfolding in_table
in_table-accepts (pos n) e h = elim (Bool-cases (leb num_events n)) [
  | inl over ↦
      absurd (exit-ne-ok (sym (if_true (leb num_events n) (exit 1 out_of_range) (ok n) over) ∙ h))
  | inr below ↦
      let e' =
        ok_inj _ _ (sym (if_false (leb num_events n) (exit 1 out_of_range) (ok n) below) ∙ h) in
      (ap pos e', ground (arith, below, e'))
]
in_table-accepts (negsuc n) e h = absurd (cc)

parse_test_option-accepts :
    (arg : Text) (e : ℕ)
    → parse_test_option arg ≡ ok e
    → (e < num_events)
      × (((strtol arg).value ≡ pos e) × ((strtol arg).rest ≡ []) ⊎ IsName moesi_type_des arg e)
unfolding parse_test_option
parse_test_option-accepts arg e h =
    let numeric = strtol arg in
    let by_number = in_table numeric.value in
    let by_name = find_name arg 0 moesi_type_des in
    let test = numeric.converted && (is_empty numeric.rest && numeric.in_range) in
    elim (Bool-cases test) [
      | inl number ↦
          let (same, lt) =
            in_table-accepts numeric.value e (sym (if_true test by_number by_name number) ∙ h) in
          (lt, inl (same, is_empty-eq numeric.rest (ground (arith, number))))
      | inr name ↦
          let (i, same, lt, there) =
            find_name-accepts arg 0 moesi_type_des e
              (sym (if_false test by_number by_name name) ∙ h) in
          let same' : i ≡ e = omega (arith, same) in
          (omega (arith, lt, same'), inr (subst (IsName moesi_type_des arg) same' there))
    ]

find_name-cong :
    (s t : Text) (idx : ℕ) (names : List Text)
    → map to_lower s ≡ map to_lower t
    → find_name s idx names ≡ find_name t idx names
unfolding find_name same_letters
find_name-cong s t idx [] h = refl
find_name-cong s t idx (name ∷ names) h = rw (h, find_name-cong s t (idx + 1) names h) refl

-- Each name is found at its own index, and begins with a letter.
abbrev is_at : Result ℕ → ℕ → Bool
is_at (ok n) idx = n == idx
is_at (exit n m) idx = false
is_at fault idx = false

abbrev starts : Text → Bool
starts [] = false
starts (c ∷ s) = is_lower (to_lower c)

abbrev distinct : List Text → ℕ → List Text → Bool
distinct table idx [] = true
distinct table idx (name ∷ names) =
    (starts name && is_at (find_name name 0 table) idx) && distinct table (idx + 1) names

table-distinct : distinct moesi_type_des 0 moesi_type_des ≡ true
unfolding find_name same_letters to_lower
table-distinct = refl

both_true : (a b : Bool) → (a && b) ≡ true → (a ≡ true) × (b ≡ true)
both_true true b h = (refl, h)
both_true false b h = absurd (cc)

at-index :
    (table : List Text) (idx i : ℕ) (names : List Text) (name : Text)
    → distinct table idx names ≡ true
    → get_elem? names i ≡ some name
    → (starts name ≡ true) × (is_at (find_name name 0 table) (idx + i) ≡ true)
at-index table idx i [] name h e = absurd (cc)
at-index table idx zero (n ∷ names) name h e =
    let e' : n ≡ name = cc in
    let here =
      both_true (starts n && is_at (find_name n 0 table) idx) (distinct table (idx + 1) names) h in
    let (first, found) = both_true (starts n) (is_at (find_name n 0 table) idx) here.0 in
    let same : idx ≡ idx + 0 = omega arith in
    subst (λ t. (starts t ≡ true) × (is_at (find_name t 0 table) (idx + 0) ≡ true)) e'
      (first, subst (λ k. is_at (find_name n 0 table) k ≡ true) same found)
at-index table idx (suc i) (n ∷ names) name h e =
    let same : idx + 1 + i ≡ idx + suc i = omega arith in
    let (first, found) =
      at-index table (idx + 1) i names name
        (both_true (starts n && is_at (find_name n 0 table) idx) (distinct table (idx + 1) names)
          h).1
        e in
    (first, subst (λ k. is_at (find_name name 0 table) k ≡ true) same found)

is_at-eq : (r : Result ℕ) (n : ℕ) → is_at r n ≡ true → r ≡ ok n
is_at-eq (ok m) n h = ground arith
is_at-eq (exit m message) n h = absurd (cc)
is_at-eq fault n h = absurd (cc)

not_numeric :
    (s t : Text) → map to_lower s ≡ map to_lower t → starts t ≡ true → (strtol s).converted ≡ false
not_numeric s [] h e = absurd (cc)
not_numeric [] (d ∷ t) h e = absurd (cc)
not_numeric (c ∷ s) (d ∷ t) h e =
    strtol-letter c s (let h' : to_lower c ≡ to_lower d = cc in rw h' e)

parse_test_option-name :
    (arg : Text) (e : ℕ) → IsName moesi_type_des arg e → parse_test_option arg ≡ ok e
unfolding parse_test_option
parse_test_option-name arg e (name, at, same) =
    let (letter, found) = at-index moesi_type_des 0 e moesi_type_des name table-distinct at in
    let h = same_letters-eq arg name same in
    let index = is_at-eq (find_name name 0 moesi_type_des) (0 + e) found in
    rw (not_numeric arg name h letter)
      (find_name-cong arg name 0 moesi_type_des h ∙ index ∙ ap ok (omega arith))

-- An argument that `parse_test_option` accepts is a number below NUM_EVENTS or the name of the event, but for the case
-- of the letters; and every name of the table, whatever the case of its letters, is read as its
-- index.
pub parse_test_option_lem :
    (arg : Text) (e : ℕ)
    → (parse_test_option arg ≡ ok e
        → (e < num_events)
          × (((strtol arg).value ≡ pos e) × ((strtol arg).rest ≡ []) ⊎ IsName moesi_type_des arg e))
      × (IsName moesi_type_des arg e → parse_test_option arg ≡ ok e)
parse_test_option_lem arg e = (parse_test_option-accepts arg e, parse_test_option-name arg e)
