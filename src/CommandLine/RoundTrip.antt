-- ===== src/CommandLine/RoundTrip.antt =====
-- A list of cores as text, and the parser on it.
use mathlib.Core.List.{append-nil}
use altered_ccbench_fork.Common.{
  ℕ, ◌^◌, ◌<◌, ◌≡◌, ◌≢◌, ◌∙◌, refl, ap, arith, false, List, [], ◌∷◌, ◌++◌, map, ◌==◌, Text, All,
  some,
}
use altered_ccbench_fork.Libc.{split, tokens, non_empty, skip_spaces}
use altered_ccbench_fork.Libc.Decimal.{
  IsDigit, value, skip-digits, strtol-digits, decimal, decimal-All, decimal-ne-nil, value-decimal,
}
use altered_ccbench_fork.CommandLine.Result.{ok}
use altered_ccbench_fork.CommandLine.CoreList.{
  outside_uint32, entry_end, entry_number, entry_at, entry, entries, unsnoc, unbracket,
  at_least_one, parse_core_list,
}

-- The texts with a comma between each two.
unfoldable pub join : List Text → Text
join [] = []
join (t ∷ []) = t
join (t ∷ u ∷ ts) = t ++ b',' ∷ join (u ∷ ts)

-- A list of cores as the option takes it, with up to ten digits each.
unfoldable pub print_core_list : List ℕ → Text
unfolding join
print_core_list cores = b'[' ∷ (join (map (decimal 10) cores) ++ b']' ∷ [])

-- The character does not occur.
abbrev Lacks : ℕ → Text → Type 0
Lacks d = All (λ c. (c == d) ≡ false)

split-Lacks : (d : ℕ) (t : Text) → Lacks d t → split d t ≡ t ∷ []
unfolding split
split-Lacks d [] h = refl
split-Lacks d (c ∷ t) (hc, h) = rw (hc, split-Lacks d t h)

split-part : (d : ℕ) (t rest : Text) → Lacks d t → split d (t ++ d ∷ rest) ≡ t ∷ split d rest
unfolding split
split-part d [] rest h = ground arith
split-part d (c ∷ t) rest (hc, h) = rw (hc, split-part d t rest h)

digits-Lacks : (t : Text) → All IsDigit t → Lacks b',' t
digits-Lacks [] h = tt
digits-Lacks (c ∷ t) (hc, h) = (ground arith, digits-Lacks t h)

-- The text of one core.
record IsNumber (t : Text) : Type 0 where
  some_digit : t ≢ []
  all_digits : All IsDigit t
  fits : value 0 t < 2 ^ 32

non_empty-cons : (t : Text) (ts : List Text) → t ≢ [] → non_empty (t ∷ ts) ≡ t ∷ non_empty ts
non_empty-cons [] ts h = absurd (h refl)
non_empty-cons (c ∷ t) ts h = refl

tokens-join :
    (t : Text) (ts : List Text) → All IsNumber (t ∷ ts) → tokens b',' (join (t ∷ ts)) ≡ t ∷ ts
unfolding tokens join
tokens-join t [] (h, hs) =
    rw (split-Lacks b',' t (digits-Lacks t (h.all_digits))) (non_empty-cons t [] (h.some_digit))
tokens-join t (u ∷ ts) (h, hs) =
    rw (split-part b',' t (join (u ∷ ts)) (digits-Lacks t (h.all_digits))) (
      non_empty-cons t (split b',' (join (u ∷ ts))) (h.some_digit)
      ∙ ap (λ r. t ∷ r) (tokens-join u ts hs))

entry_at-cons : (t : Text) → t ≢ [] → entry_at t ≡ entry_number t
unfolding entry_at
entry_at-cons [] h = absurd (h refl)
entry_at-cons (c ∷ t) h = refl

entry_number-digits : (t : Text) → IsNumber t → entry_number t ≡ ok (value 0 t)
unfolding entry_number outside_uint32 entry_end skip_spaces
entry_number-digits t h =
    let read = strtol-digits t [] (h.some_digit) (h.all_digits) tt (omega (arith, h.fits)) in
    let whole = rw (append-nil t) at read in rw whole (ground (arith, h.fits))

entry-digits : (t : Text) → IsNumber t → entry t ≡ ok (value 0 t)
unfolding entry
entry-digits t h =
    rw (skip-digits t (h.all_digits)) (entry_at-cons t (h.some_digit) ∙ entry_number-digits t h)

entries-digits : (ts : List Text) → All IsNumber ts → entries ts ≡ ok (map (value 0) ts)
unfolding entries
entries-digits [] h = refl
entries-digits (t ∷ ts) (h, hs) = rw (entry-digits t h, entries-digits ts hs)

pub unsnoc-append : (s : Text) (c : ℕ) → unsnoc (s ++ c ∷ []) ≡ some (s, c)
unfolding unsnoc
unsnoc-append [] c = refl
unsnoc-append (d ∷ s) c = rw (unsnoc-append s c)

unbracket-brackets : (s : Text) → unbracket (b'[' ∷ (s ++ b']' ∷ [])) ≡ some s
unfolding unbracket
unbracket-brackets s = rw (unsnoc-append s b']')

decimal-IsNumber : (n : ℕ) → n < 2 ^ 32 → IsNumber (decimal 10 n)
decimal-IsNumber n h =
    let same = value-decimal 9 n (omega arith) in
    record {
      some_digit = decimal-ne-nil 9 n;
      all_digits = decimal-All 10 n;
      fits = omega (arith, same);
    }

decimals-IsNumber :
    (cores : List ℕ) → All (λ n. n < 2 ^ 32) cores → All IsNumber (map (decimal 10) cores)
decimals-IsNumber [] h = tt
decimals-IsNumber (n ∷ cores) (hn, h) = (decimal-IsNumber n hn, decimals-IsNumber cores h)

values-decimals :
    (cores : List ℕ) → All (λ n. n < 2 ^ 32) cores → map (value 0) (map (decimal 10) cores) ≡ cores
values-decimals [] h = refl
values-decimals (n ∷ cores) (hn, h) = cc (value-decimal 9 n (omega arith), values-decimals cores h)

-- `parse_cores_array_option` reads back every list of at least one core number below 2^32 that is
-- printed in decimal, with commas between and brackets around.
pub parse-print :
    (cores : List ℕ)
    → cores ≢ []
    → All (λ n. n < 2 ^ 32) cores
    → parse_core_list (print_core_list cores) ≡ ok cores
unfolding parse_core_list print_core_list at_least_one
parse-print [] some_core h = absurd (some_core refl)
parse-print (n ∷ cores) some_core h =
    let numbers = decimals-IsNumber (n ∷ cores) h in
    rw (
      unbracket-brackets (join (map (decimal 10) (n ∷ cores))),
      tokens-join (decimal 10 n) (map (decimal 10) cores) numbers,
      entries-digits (map (decimal 10) (n ∷ cores)) numbers,
      values-decimals (n ∷ cores) h,
    )
