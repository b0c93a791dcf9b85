-- ===== src/Libc.antt =====
-- What src/ccbench.c calls of the C library on strings, in the C locale: `isspace`, `strtol` in base
-- 10, `atoi`, `strtok_r` and `strcasecmp`.
pub mod Decimal
pub mod Letters
use altered_ccbench_fork.Common.{
  ℕ, zero, suc, ◌+◌, ◌-◌, ◌*◌, ◌%◌, ◌^◌, Bool, true, false, ◌&&◌, ◌||◌, List, [], ◌∷◌,
  if◌then◌else◌, ltb, leb, ◌==◌, Text, map,
}

-- `negsuc n` is -(n + 1).
pub data ℤ : Type 0 where
  pos : ℕ → ℤ
  negsuc : ℕ → ℤ

pub is_space : ℕ → Bool
is_space c = c == b' ' || leb 9 c && leb c 13

pub is_digit : ℕ → Bool
is_digit c = leb b'0' c && leb c b'9'

unfoldable pub skip_spaces : Text → Text
unfolding is_space
skip_spaces [] = []
skip_spaces (c ∷ s) = if is_space c then skip_spaces s else c ∷ s

-- The number that the leading digits spell behind `n`, and what follows them.
unfoldable pub digits : ℕ → Text → ℕ × Text
unfolding is_digit
digits n [] = (n, [])
digits n (c ∷ s) = if is_digit c then digits (n * 10 + (c - b'0')) s else (n, c ∷ s)

-- The result of `strtol`: `converted` is `endptr != nptr`, `rest` is the text at `endptr`, and
-- `in_range` is `errno == 0`.
pub record Long : Type 0 where
  pub converted : Bool
  pub in_range : Bool
  pub value : ℤ
  pub rest : Text

abbrev negate : ℕ → ℤ
negate zero = pos 0
negate (suc n) = negsuc n

-- The value in a `long`, or the bound of its side.
clamp : Bool → ℕ → Text → Long
clamp false n rest =
    if ltb n (2 ^ 63)
    then record { converted = true; in_range = true; value = pos n; rest = rest }
    else record { converted = true; in_range = false; value = pos (2 ^ 63 - 1); rest = rest }
clamp true n rest =
    if leb n (2 ^ 63)
    then record { converted = true; in_range = true; value = negate n; rest = rest }
    else record { converted = true; in_range = false; value = negsuc (2 ^ 63 - 1); rest = rest }

abbrev unconverted : Text → Long
unconverted s = record { converted = false; in_range = true; value = pos 0; rest = s }

-- At the first character behind the sign; `whole` is the text that `strtol` was called with.
magnitude : Bool → Text → Text → Long
unfolding clamp is_digit digits
magnitude negative whole [] = unconverted whole
magnitude negative whole (c ∷ s) =
    if is_digit c
    then clamp negative (digits 0 (c ∷ s)).0 (digits 0 (c ∷ s)).1
    else unconverted whole

signed : Text → Text → Long
unfolding magnitude
signed whole [] = unconverted whole
signed whole (c ∷ s) =
    if c == b'-'
    then magnitude true whole s
    else if c == b'+'
    then magnitude false whole s
    else magnitude false whole (c ∷ s)

-- `strtol(s, &endptr, 10)`
unfoldable pub strtol : Text → Long
unfolding signed skip_spaces
strtol s = signed s (skip_spaces s)

-- The 32 low bits of a `long`, read as an `int` and converted to `uint32_t`, and an `int` of these
-- bits converted to `size_t`.
unfoldable pub to_uint32 : ℤ → ℕ
to_uint32 (pos n) = n % 2 ^ 32
to_uint32 (negsuc n) = 2 ^ 32 - 1 - n % 2 ^ 32

unfoldable pub sign_extend : ℕ → ℕ
sign_extend n = if ltb n (2 ^ 31) then n else n + (2 ^ 64 - 2 ^ 32)

-- `atoi(s)`, as the bits of the `int`.
unfoldable pub atoi : Text → ℕ
unfolding strtol to_uint32
atoi s = to_uint32 (strtol s).value

-- The parts between the occurrences of `delimiter`.
abbrev pub push : ℕ → List Text → List Text
push c [] = (c ∷ []) ∷ []
push c (part ∷ parts) = (c ∷ part) ∷ parts

unfoldable pub split : ℕ → Text → List Text
split delimiter [] = [] ∷ []
split delimiter (c ∷ s) =
    let parts = split delimiter s in if c == delimiter then [] ∷ parts else push c parts

-- The tokens that repeated calls of `strtok_r` return: the parts that are not empty.
abbrev pub non_empty : List Text → List Text
non_empty [] = []
non_empty ([] ∷ parts) = non_empty parts
non_empty ((c ∷ part) ∷ parts) = (c ∷ part) ∷ non_empty parts

unfoldable pub tokens : ℕ → Text → List Text
unfolding split
tokens delimiter s = non_empty (split delimiter s)

unfoldable pub to_lower : ℕ → ℕ
to_lower c = if leb b'A' c && leb c b'Z' then c + 32 else c

-- `strcasecmp(s, t) == 0`
abbrev same_text : Text → Text → Bool
same_text [] [] = true
same_text (a ∷ s) (b ∷ t) = a == b && same_text s t
same_text _ _ = false

unfoldable pub same_letters : Text → Text → Bool
unfolding to_lower
same_letters s t = same_text (map to_lower s) (map to_lower t)
