-- ===== src/Libc/Letters.antt =====
-- Texts that are the same but for the case of their letters.
use altered_ccbench_fork.Common.{
  ℕ, ◌≡◌, ◌∙◌, ap, refl, arith, Bool, true, false, ◌&&◌, [], ◌∷◌, leb, ◌==◌, Text, map,
}
use altered_ccbench_fork.Libc.{
  is_space, is_digit, skip_spaces, magnitude, signed, strtol, to_lower, same_text, same_letters,
}

pub same_text-eq : (s t : Text) → same_text s t ≡ true → s ≡ t
same_text-eq [] [] h = refl
same_text-eq [] (b ∷ t) h = absurd (cc)
same_text-eq (a ∷ s) [] h = absurd (cc)
same_text-eq (a ∷ s) (b ∷ t) h =
    let e : a ≡ b = ground arith in
    let e' : same_text s t ≡ true = ground arith in
    ap (λ x. x ∷ s) e ∙ ap (λ x. b ∷ x) (same_text-eq s t e')

pub same_letters-eq : (s t : Text) → same_letters s t ≡ true → map to_lower s ≡ map to_lower t
unfolding same_letters
same_letters-eq s t h = same_text-eq (map to_lower s) (map to_lower t) h

abbrev pub is_lower : ℕ → Bool
is_lower c = leb b'a' c && leb c b'z'

letter-classes :
    (c : ℕ)
    → is_lower (to_lower c) ≡ true
    → (is_space c ≡ false) × (is_digit c ≡ false) × ((c == b'-') ≡ false) × ((c == b'+') ≡ false)
unfolding to_lower is_space is_digit
letter-classes c h = ground arith

-- A text that begins with a letter is no number.
pub strtol-letter :
    (c : ℕ) (s : Text) → is_lower (to_lower c) ≡ true → (strtol (c ∷ s)).converted ≡ false
unfolding strtol skip_spaces signed magnitude
strtol-letter c s h =
    let (space, digit, minus, plus) = letter-classes c h in rw (space, minus, plus, digit) refl
