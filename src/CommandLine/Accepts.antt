-- ===== src/CommandLine/Accepts.antt =====
-- What `parse_cores_array_option` accepts.
use altered_ccbench_fork.Common.{
  Bool, All, ◌||◌, not, ◌^◌, ◌++◌, ◌<◌, ◌⊎◌, ◌&&◌, inl, inr, Bool-cases, ℕ, suc, ◌+◌, ◌≤◌, ◌≡◌,
  refl, ap, subst, sym, ◌∙◌, arith, true, false, List, [], ◌∷◌, none, some, if◌then◌else◌, ◌==◌,
  length, Text,
}
use altered_ccbench_fork.Libc.{ℤ, pos, negsuc, strtol, skip_spaces, push, split, non_empty, tokens}
use altered_ccbench_fork.CommandLine.Result.{
  Message, expects_brackets, Result, ok, exit, ◌>>=◌, >>=-eq-ok,
}
use altered_ccbench_fork.CommandLine.CoreList.{
  to_core, outside_uint32, entry_end, entry_number, entry_at, entry, entries, unsnoc, unbracket,
  at_least_one, parse_core_list,
}

push-length : (c : ℕ) (parts : List Text) → length (push c parts) ≤ length parts + 1
push-length c [] = omega arith
push-length c (part ∷ parts) = omega arith

split-length : (d : ℕ) (s : Text) → length (split d s) ≤ length s + 1
unfolding split
split-length d [] = omega arith
split-length d (c ∷ s) = ground (arith, split-length d s, push-length c (split d s))

non_empty-length : (parts : List Text) → length (non_empty parts) ≤ length parts
non_empty-length [] = omega arith
non_empty-length ([] ∷ parts) = omega (arith, non_empty-length parts)
non_empty-length ((c ∷ part) ∷ parts) = omega (arith, non_empty-length parts)

tokens-length : (d : ℕ) (s : Text) → length (tokens d s) ≤ length s + 1
unfolding tokens
tokens-length d s = omega (arith, non_empty-length (split d s), split-length d s)

pub entries-length : (ts : List Text) (l : List ℕ) → entries ts ≡ ok l → length l ≡ length ts
unfolding entries
entries-length [] l h = let e : l ≡ [] = cc in ap length e
entries-length (t ∷ ts) l h =
    let (n, e, h') = >>=-eq-ok (entry t) _ h in
    let (ns, e', h'') = >>=-eq-ok (entries ts) _ h' in
    let q = entries-length ts ns e' in let e'' : l ≡ n ∷ ns = cc in ap length e'' ∙ ap suc q

-- A text is empty, or it ends in a character.
pub unsnoc-cases :
    (s : Text)
    → ((s ≡ []) × (unsnoc s ≡ none))
      ⊎ ((before : Text) × (last : ℕ) × (s ≡ before ++ last ∷ [])
          × (unsnoc s ≡ some (before, last)))
unfolding unsnoc
unsnoc-cases [] = inl (refl, refl)
unsnoc-cases (c ∷ s) = elim (unsnoc-cases s) [
  | inl (e, q) ↦ inr ([], c, ap (λ t. c ∷ t) e, rw q refl)
  | inr (before, last, e, q) ↦ inr (c ∷ before, last, ap (λ t. c ∷ t) e, rw q refl)
]

-- Only a text in brackets has something between the brackets.
pub unbracket-cases :
    (s : Text)
    → (unbracket s ≡ none)
      ⊎ ((inner : Text) × (s ≡ b'[' ∷ (inner ++ b']' ∷ [])) × (unbracket s ≡ some inner))
unfolding unbracket
unbracket-cases [] = inl refl
unbracket-cases (c ∷ s) = elim (unsnoc-cases s) [
  | inl (e, q) ↦ inl (rw q (ground arith))
  | inr (before, last, e, q) ↦ elim (Bool-cases (c == b'[' && last == b']')) [
    | inl both ↦ inr (
      before,
      (let first : c ≡ b'[' = ground arith in
          let end : last ≡ b']' = ground arith in
          ap (λ x. x ∷ s) first ∙ ap (λ t. b'[' ∷ t) (e ∙ ap (λ x. before ++ x ∷ []) end)),
      (rw q (ground arith)),
    )
    | inr other ↦ inl (rw q (ground arith))
  ]
]

at_least_one-eq-ok : (m l : List ℕ) → at_least_one m ≡ ok l → (m ≡ l) × (0 < length l)
unfolding at_least_one
at_least_one-eq-ok [] l h = absurd (cc)
at_least_one-eq-ok (n ∷ ns) l h =
    let e : n ∷ ns ≡ l = cc in (e, subst (λ m. 0 < length m) e (omega arith))

-- What is accepted.
parse_core_list-inner :
    (s : Text) (l : List ℕ)
    → parse_core_list s ≡ ok l
    → (inner : Text) × (s ≡ b'[' ∷ (inner ++ b']' ∷ []))
      × (entries (tokens b',' inner) ≡ ok l)
      × (0 < length l)
unfolding parse_core_list
parse_core_list-inner s l h = elim (unbracket-cases s) [
  | inl e ↦
      (let refused : parse_core_list s ≡ exit 1 expects_brackets = rw (e, parse_core_list) refl in
        absurd (cc))
  | inr (inner, e, q) ↦
      (let read : parse_core_list s ≡ (entries (tokens b',' inner) >>= at_least_one) =
          rw (q, parse_core_list) refl in
        let (m, got, kept) = >>=-eq-ok (entries (tokens b',' inner)) at_least_one (sym read ∙ h) in
        let (same, some_core) = at_least_one-eq-ok m l kept in
        (inner, e, got ∙ ap ok same, some_core))
]

++-snoc-length : (s : Text) (c : ℕ) → length (s ++ c ∷ []) ≡ length s + 1
++-snoc-length [] c = refl
++-snoc-length (d ∷ s) c = omega (arith, ++-snoc-length s c)

pub parse_core_list-length :
    (s : Text) (l : List ℕ) → parse_core_list s ≡ ok l → length l ≤ length s
parse_core_list-length s l h =
    let (inner, e, read, some_core) = parse_core_list-inner s l h in
    let same = entries-length (tokens b',' inner) l read in
    let few = tokens-length b',' inner in
    let long : length s ≡ suc (length inner + 1) =
      ap length e ∙ ap suc (++-snoc-length inner b']') in
    omega (arith, same, few, long)

entry_end-eq-ok : (s : Text) (m n : ℕ) → entry_end s m ≡ ok n → (s ≡ []) × (m ≡ n)
unfolding entry_end
entry_end-eq-ok [] m n h = (refl, cc)
entry_end-eq-ok (c ∷ s) m n h = absurd (cc)

to_core-lt : (v : ℤ) → outside_uint32 v ≡ false → to_core v < 2 ^ 32
unfolding outside_uint32
to_core-lt (pos n) h = ground arith
to_core-lt (negsuc n) h = absurd (cc)

accepted-eq-ok :
    (b : Bool) (r : Result ℕ) (m : Message) (n : ℕ)
    → (if b then exit 1 m else r) ≡ ok n
    → (b ≡ false) × (r ≡ ok n)
accepted-eq-ok true r m n h = absurd (cc)
accepted-eq-ok false r m n h = (refl, h)

entry_number-lt : (s : Text) (n : ℕ) → entry_number s ≡ ok n → n < 2 ^ 32
unfolding entry_number
entry_number-lt s n h =
    let v = (strtol s).value in
    let (good, read) =
      accepted-eq-ok (not (strtol s).in_range || (not (strtol s).converted || outside_uint32 v)) _ _
        _ h in
    let (end, same) = entry_end-eq-ok (skip_spaces (strtol s).rest) (to_core v) n read in
    subst (λ m. m < 2 ^ 32) same (to_core-lt v (ground arith))

entry_at-lt : (s : Text) (n : ℕ) → entry_at s ≡ ok n → n < 2 ^ 32
unfolding entry_at
entry_at-lt [] n h = absurd (cc)
entry_at-lt (c ∷ s) n h = entry_number-lt (c ∷ s) n h

entries-lt : (ts : List Text) (l : List ℕ) → entries ts ≡ ok l → All (λ n. n < 2 ^ 32) l
unfolding entries entry
entries-lt [] l h = let e : [] ≡ l = cc in subst (All (λ n. n < 2 ^ 32)) e tt
entries-lt (t ∷ ts) l h =
    let (n, e, h') = >>=-eq-ok (entry t) _ h in
    let (ns, e', h'') = >>=-eq-ok (entries ts) _ h' in
    let e'' : n ∷ ns ≡ l = cc in
    subst (All (λ n. n < 2 ^ 32)) e'' (entry_at-lt (skip_spaces t) n e, entries-lt ts ns e')

-- A list that `parse_cores_array_option` accepts stood in brackets, has at least one core, has as many cores as there are
-- parts between the commas that are not empty, and its cores fit 32 bits.
pub parse_core_list-accepts :
    (s : Text) (l : List ℕ)
    → parse_core_list s ≡ ok l
    → (inner : Text) × (s ≡ b'[' ∷ (inner ++ b']' ∷ []))
      × (0 < length l)
      × (length l ≡ length (tokens b',' inner))
      × All (λ n. n < 2 ^ 32) l
parse_core_list-accepts s l h =
    let (inner, e, read, some_core) = parse_core_list-inner s l h in
    let ts = tokens b',' inner in
    (inner, e, some_core, entries-length ts l read, entries-lt ts l read)
