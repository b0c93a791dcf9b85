-- ===== src/CommandLine/Scale.antt =====
-- What `parse_size` reads.
use altered_ccbench_fork.Common.{
  ℕ, ◌*◌, ◌%◌, ◌^◌, ◌<◌, ◌≡◌, ◌≢◌, ap, subst, refl, arith, false, [], ◌∷◌, ◌++◌, some, inl, inr,
  if◌then◌else◌, All, Text,
}
use altered_ccbench_fork.Libc.{pos, strtol, to_uint32, atoi, sign_extend}
use altered_ccbench_fork.Libc.Decimal.{IsDigit, value, strtol-digits}
use altered_ccbench_fork.CommandLine.Result.{ok}
use altered_ccbench_fork.CommandLine.CoreList.{unsnoc}
use altered_ccbench_fork.CommandLine.RoundTrip.{unsnoc-append}
use altered_ccbench_fork.CommandLine.Accepts.{unsnoc-cases}
use altered_ccbench_fork.CommandLine.Size.{is_letter, last_character, without_b, parse_size}

-- The factor of a suffix; 0 is no suffix.
abbrev pub scale : ℕ → ℕ
scale c =
    if is_letter b'k' b'K' c
    then 1024
    else if is_letter b'm' b'M' c
    then 1024 * 1024
    else if is_letter b'g' b'G' c
    then 1024 * 1024 * 1024
    else 0

++-nil : (t : Text) → t ++ [] ≡ t
++-nil [] = refl
++-nil (c ∷ t) = ap (λ s. c ∷ s) (++-nil t)

atoi_long :
    (t : Text) → t ≢ [] → All IsDigit t → value 0 t < 2 ^ 31 → (strtol t).value ≡ pos (value 0 t)
atoi_long t some_digit h small =
    subst (λ s. (strtol s).value ≡ pos (value 0 t)) (++-nil t)
      (ap (λ l. l.value) (strtol-digits t [] some_digit h tt (omega (arith, small))))

atoi-digits :
    (t : Text) → t ≢ [] → All IsDigit t → value 0 t < 2 ^ 31 → sign_extend (atoi t) ≡ value 0 t
unfolding atoi sign_extend to_uint32
atoi-digits t some_digit h small = rw (atoi_long t some_digit h small) (ground (arith, small))

last_character-unsnoc :
    (s before : Text) (c : ℕ) → unsnoc s ≡ some (before, c) → last_character s ≡ ok (before, c)
unfolding last_character
last_character-unsnoc s before c e = rw (e, last_character) refl

without_b-other :
    (s before : Text) (c : ℕ)
    → unsnoc s ≡ some (before, c)
    → is_letter b'b' b'B' c ≡ false
    → without_b s ≡ ok (s, (before, c))
unfolding without_b
without_b-other s before c e other = rw (last_character-unsnoc s before c e, other) refl

without_b-final :
    (s before : Text) (c : ℕ)
    → unsnoc s ≡ some (before, c)
    → without_b (s ++ b'b' ∷ []) ≡ ok (s, (before, c))
unfolding without_b
without_b-final s before c e =
    rw
      (
        last_character-unsnoc (s ++ b'b' ∷ []) s b'b' (unsnoc-append s b'b'),
        last_character-unsnoc s before c e,
      )
      refl

factor_lem :
    (c n m : ℕ)
    → n < 2 ^ 31
    → 0 < scale c
    → (if is_letter b'k' b'K' c
        then 1024 * n % 2 ^ 64
        else if is_letter b'm' b'M' c
        then 1024 * 1024 * n % 2 ^ 64
        else if is_letter b'g' b'G' c
        then 1024 * 1024 * 1024 * n % 2 ^ 64
        else m)
      ≡ scale c * n
factor_lem c n m small factor = ground (arith, small, factor)

digit_lem :
    (c k m g n : ℕ)
    → IsDigit c
    → (if is_letter b'k' b'K' c
        then k
        else if is_letter b'm' b'M' c
        then m
        else if is_letter b'g' b'G' c
        then g
        else n)
      ≡ n
digit_lem c k m g n digit = ground (arith, digit)

scaled :
    (s whole t : Text) (c n : ℕ)
    → without_b s ≡ ok (whole, (t, c))
    → sign_extend (atoi t) ≡ n
    → n < 2 ^ 31
    → 0 < scale c
    → parse_size s ≡ ok (scale c * n)
unfolding parse_size
scaled s whole t c n e number small factor = rw (e, number) (ap ok (factor_lem c n _ small factor))

unscaled :
    (s whole t : Text) (c n : ℕ)
    → without_b s ≡ ok (whole, (t, c))
    → sign_extend (atoi whole) ≡ n
    → IsDigit c
    → parse_size s ≡ ok n
unfolding parse_size
unscaled s whole t c n e number digit = rw (e, number) (ap ok (digit_lem c _ _ _ n digit))

IsDigit-last : (before : Text) (c : ℕ) → All IsDigit (before ++ c ∷ []) → IsDigit c
IsDigit-last [] c (h, rest) = h
IsDigit-last (d ∷ before) c (h, rest) = IsDigit-last before c rest

-- A number below 2 ^ 31 in decimal digits is read as itself, also before a `b`; before a suffix k, m
-- or g, of either case and also with a `b` behind it, it is read as so many times 2 ^ 10, 2 ^ 20 or
-- 2 ^ 30.
pub parse_size_lem :
    (t : Text) (c : ℕ)
    → t ≢ []
    → All IsDigit t
    → value 0 t < 2 ^ 31
    → 0 < scale c
    → (parse_size t ≡ ok (value 0 t))
      × (parse_size (t ++ b'b' ∷ []) ≡ ok (value 0 t))
      × (parse_size (t ++ c ∷ []) ≡ ok (scale c * value 0 t))
      × (parse_size ((t ++ c ∷ []) ++ b'b' ∷ []) ≡ ok (scale c * value 0 t))
parse_size_lem t c some_digit h small factor =
    let number = atoi-digits t some_digit h small in
    let behind = unsnoc-append t c in
    let other : is_letter b'b' b'B' c ≡ false = ground (arith, factor) in
    elim (unsnoc-cases t) [
      | inl (empty, _) ↦ absurd (some_digit empty)
      | inr (before, last, e, q) ↦
          let digit = IsDigit-last before last (subst (All IsDigit) e h) in
          (
            unscaled t t before last _ (without_b-other t before last q (ground (arith, digit)))
                number digit,
            unscaled (t ++ b'b' ∷ []) t before last _ (without_b-final t before last q) number
                digit,
            scaled (t ++ c ∷ []) (t ++ c ∷ []) t c _
                (without_b-other (t ++ c ∷ []) t c behind other) number small factor,
            scaled ((t ++ c ∷ []) ++ b'b' ∷ []) (t ++ c ∷ []) t c _
                (without_b-final (t ++ c ∷ []) t c behind) number small factor,
          )
    ]
