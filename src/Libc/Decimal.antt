-- ===== src/Libc/Decimal.antt =====
-- `strtol` and `atoi` on decimal numbers, and a printer of such numbers.
use native.Mathlib.Nat.{pow-suc}
use altered_ccbench_fork.Common.{
  ◌≢◌, dec_lt, lt→ltb, le→ltb, ℕ, zero, suc, ◌+◌, ◌-◌, ◌*◌, ◌/◌, ◌%◌, ◌^◌, ◌≤◌, ◌<◌, ◌≡◌, ◌∙◌, refl,
  arith, true, false, [], ◌∷◌, ◌++◌, if◌then◌else◌, ltb, Text, All, List,
}
use altered_ccbench_fork.Libc.{
  pos, is_space, is_digit, skip_spaces, digits, strtol, signed, magnitude, clamp,
}

abbrev pub IsDigit : ℕ → Type 0
IsDigit c = (b'0' ≤ c) × (c ≤ b'9')

-- The number that digits spell behind `n`.
abbrev pub value : ℕ → Text → ℕ
value n [] = n
value n (c ∷ s) = value (n * 10 + (c - b'0')) s

-- No digit comes first.
abbrev pub Ends : Text → Type 0
Ends [] = Unit {0}
Ends (c ∷ s) = is_digit c ≡ false

digits-append :
    (n : ℕ) (s rest : Text) → All IsDigit s → Ends rest → digits n (s ++ rest) ≡ (value n s, rest)
unfolding digits is_digit
digits-append n [] [] h e = refl
digits-append n [] (c ∷ rest) h e = rw e
digits-append n (c ∷ s) rest (hc, hs) e =
    ground (arith, digits-append (n * 10 + (c - b'0')) s rest hs e)

-- `strtol` reads a decimal number that fits a `long`, and stops behind it.
pub strtol-decimal :
    (c : ℕ) (s rest : Text)
    → All IsDigit (c ∷ s)
    → Ends rest
    → value 0 (c ∷ s) < 2 ^ 63
    → strtol ((c ∷ s) ++ rest)
      ≡ record { converted = true; in_range = true; value = pos (value 0 (c ∷ s)); rest = rest }
unfolding strtol signed magnitude clamp skip_spaces is_space is_digit
strtol-decimal c s rest (hc, hs) e fits = ground (arith, digits-append 0 (c ∷ s) rest (hc, hs) e)

pub strtol-digits :
    (t rest : Text)
    → t ≢ []
    → All IsDigit t
    → Ends rest
    → value 0 t < 2 ^ 63
    → strtol (t ++ rest)
      ≡ record { converted = true; in_range = true; value = pos (value 0 t); rest = rest }
strtol-digits [] rest h = absurd (h refl)
strtol-digits (c ∷ s) rest h = strtol-decimal c s rest

-- A number of at most `width` decimal digits.
unfoldable pub decimal : ℕ → ℕ → Text
decimal zero n = []
decimal (suc width) n =
    let front = decimal width (n / 10) in
    if ltb n 10 then (b'0' + n) ∷ [] else front ++ (b'0' + n % 10) ∷ []

All-append {ℓ κ} :
    {A : Type ℓ} (P : A → Type κ) (xs ys : List A) → All P xs → All P ys → All P (xs ++ ys)
All-append P [] ys h h' = h'
All-append P (x ∷ xs) ys (p, h) h' = (p, All-append P xs ys h h')

value-append : (n : ℕ) (s : Text) (c : ℕ) → value n (s ++ c ∷ []) ≡ value n s * 10 + (c - b'0')
value-append n [] c = refl
value-append n (d ∷ s) c = value-append (n * 10 + (d - b'0')) s c

snoc-ne-nil : (s : Text) (c : ℕ) → s ++ c ∷ [] ≢ []
snoc-ne-nil [] c = λ e. cc e
snoc-ne-nil (d ∷ s) c = λ e. cc e

pub decimal-All : (width n : ℕ) → All IsDigit (decimal width n)
unfolding decimal
decimal-All zero n = tt
decimal-All (suc width) n = elim (dec_lt n 10) [
  | yes lt ↦ rw (lt→ltb n 10 lt) (omega arith)
  | no ge ↦
      rw (le→ltb n 10 (omega arith))
        (All-append IsDigit (decimal width (n / 10)) _ (decimal-All width (n / 10)) (omega arith))
]

pub decimal-ne-nil : (width n : ℕ) → decimal (suc width) n ≢ []
unfolding decimal
decimal-ne-nil width n = elim (dec_lt n 10) [
  | yes lt ↦ rw (lt→ltb n 10 lt) (λ e. cc e)
  | no ge ↦ rw (le→ltb n 10 (omega arith)) (snoc-ne-nil (decimal width (n / 10)) _)
]

pub value-decimal : (width n : ℕ) → n < 10 ^ suc width → value 0 (decimal (suc width) n) ≡ n
unfolding decimal
value-decimal zero n h = elim (dec_lt n 10) [
  | yes lt ↦ rw (lt→ltb n 10 lt) (omega arith)
  | no ge ↦ absurd (omega arith)
]
value-decimal (suc width) n h = elim (dec_lt n 10) [
  | yes lt ↦ rw (lt→ltb n 10 lt) (omega arith)
  | no ge ↦ rw (le→ltb n 10 (omega arith)) (
      value-append 0 (decimal (suc width) (n / 10)) (b'0' + n % 10)
      ∙ omega (arith, value-decimal width (n / 10) (omega (arith, pow-suc 10 (suc width)))))
]

pub skip-digits : (t : Text) → All IsDigit t → skip_spaces t ≡ t
unfolding skip_spaces is_space
skip-digits [] h = refl
skip-digits (c ∷ t) (hc, h) = ground arith
