-- ===== src/CommandLine/Size.antt =====
-- `parse_size`: a number with a suffix. `size_t` has 64 bits.
use altered_ccbench_fork.Common.{
  ℕ, ◌*◌, ◌%◌, ◌^◌, Bool, ◌||◌, none, some, if◌then◌else◌, ◌==◌, Text,
}
use altered_ccbench_fork.Libc.{atoi, sign_extend}
use altered_ccbench_fork.CommandLine.Result.{Result, ok, fault, ◌>>=◌}
use altered_ccbench_fork.CommandLine.CoreList.{unsnoc}

-- `optarg[strlen(optarg) - 1]` and the text before it; outside of an empty string.
unfoldable pub last_character : Text → Result (Text × ℕ)
unfolding unsnoc
last_character s = elim (unsnoc s) [ none ↦ fault | some p ↦ ok p ]

-- `multi == 'k' || multi == 'K'`
abbrev pub is_letter : ℕ → ℕ → ℕ → Bool
is_letter lower upper c = c == lower || c == upper

-- The text without a final `b`, and its last character.
unfoldable pub without_b : Text → Result (Text × (Text × ℕ))
unfolding last_character
without_b s = do
  (before, multi) ← last_character s
  if is_letter b'b' b'B' multi
      then (do (before', multi') ← last_character before; ok (before, (before', multi')))
      else ok (s, (before, multi))

unfoldable pub parse_size : Text → Result ℕ
unfolding without_b
parse_size optarg = do
  (s, (before, multi)) ← without_b optarg
  ok (
      if is_letter b'k' b'K' multi
      then 1024 * sign_extend (atoi before) % 2 ^ 64
      else if is_letter b'm' b'M' multi
      then 1024 * 1024 * sign_extend (atoi before) % 2 ^ 64
      else if is_letter b'g' b'G' multi
      then 1024 * 1024 * 1024 * sign_extend (atoi before) % 2 ^ 64
      else sign_extend (atoi s))
