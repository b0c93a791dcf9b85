-- ===== src/CommandLine/CoreList.antt =====
-- `parse_cores_array_option`, up to the end of the loop over the tokens and the check for an empty
-- list. The memory that `strdup` and `realloc` fail to give ends the program and is not modelled.
use altered_ccbench_fork.Common.{
  ◌-◌, ℕ, ◌^◌, Bool, true, ◌||◌, not, List, [], ◌∷◌, Option, none, some, if◌then◌else◌, ltb, ◌==◌,
  Text,
}
use altered_ccbench_fork.Libc.{ℤ, pos, negsuc, skip_spaces, strtol, tokens}
use altered_ccbench_fork.CommandLine.Result.{
  Result, ok, exit, ◌>>=◌, expects_brackets, empty_entry, invalid_core, no_cores,
  unexpected_character,
}

-- `value < 0 || (unsigned long) value > UINT32_MAX`
unfoldable pub outside_uint32 : ℤ → Bool
outside_uint32 (pos n) = ltb (2 ^ 32 - 1) n
outside_uint32 (negsuc n) = true

-- `(uint32_t) value`, of a value that is not negative.
abbrev pub to_core : ℤ → ℕ
to_core (pos n) = n
to_core (negsuc n) = 0

-- Behind the number stand only spaces.
unfoldable pub entry_end : Text → ℕ → Result ℕ
entry_end [] n = ok n
entry_end (c ∷ s) n = exit 1 (unexpected_character c)

unfoldable pub entry_number : Text → Result ℕ
unfolding outside_uint32 entry_end
entry_number token =
    let n = strtol token in
    if not n.in_range || (not n.converted || outside_uint32 n.value)
    then exit 1 invalid_core
    else entry_end (skip_spaces n.rest) (to_core n.value)

-- The body of the loop, at a token behind its leading spaces.
unfoldable pub entry_at : Text → Result ℕ
unfolding entry_number
entry_at [] = exit 1 empty_entry
entry_at (c ∷ s) = entry_number (c ∷ s)

unfoldable pub entry : Text → Result ℕ
unfolding entry_at
entry token = entry_at (skip_spaces token)

-- The loop over the tokens.
unfoldable pub entries : List Text → Result (List ℕ)
unfolding entry
entries [] = ok []
entries (token ∷ rest) = do value ← entry token; parsed ← entries rest; ok (value ∷ parsed)

-- A text without its last character, and that character.
unfoldable pub unsnoc : Text → Option (Text × ℕ)
unsnoc [] = none
unsnoc (c ∷ s) = elim (unsnoc s) [
  | none ↦ some ([], c)
  | some (before, last) ↦ some (c ∷ before, last)
]

-- The text between the brackets.
unfoldable pub unbracket : Text → Option Text
unfolding unsnoc
unbracket [] = none
unbracket (c ∷ s) =
    if c == b'['
    then elim (unsnoc s) [
      | none ↦ none
      | some (before, last) ↦ if last == b']' then some before else none
    ]
    else none

unfoldable pub at_least_one : List ℕ → Result (List ℕ)
at_least_one [] = exit 1 no_cores
at_least_one (n ∷ ns) = ok (n ∷ ns)

unfoldable pub parse_core_list : Text → Result (List ℕ)
unfolding unbracket entries at_least_one
parse_core_list arg = elim (unbracket arg) [
  | none ↦ exit 1 expects_brackets
  | some inner ↦ entries (tokens b',' inner) >>= at_least_one
]
