-- ===== src/CommandLine/Choice.antt =====
-- What the options on cores ask for, without the arrays: a number of cores, a list, or both.
use altered_ccbench_fork.Common.{
  ℕ, Bool, true, List, Option, none, some, if◌then◌else◌, ◌==◌, length, get_elem?,
}
use altered_ccbench_fork.CommandLine.Result.{Result, ok, exit, core_count}

pub record Choice : Type 0 where
  pub count : Option ℕ
  pub list : Option (List ℕ)

abbrev pub no_choice : Choice
no_choice = record { count = none; list = none }

-- A number and a list must agree, whichever comes first.
abbrev pub agrees : Option ℕ → Option (List ℕ) → Bool
agrees (some n) (some l) = n == length l
agrees _ _ = true

abbrev pub checked : Choice → Result Choice
checked ch = if agrees ch.count ch.list then ok ch else exit 1 core_count

unfoldable pub choose_count : ℕ → Choice → Result Choice
choose_count n ch = checked (record ch { count = some n })

unfoldable pub choose_list : List ℕ → Choice → Result Choice
choose_list l ch = checked (record ch { list = some l })

-- The number of threads: two, if nothing is asked.
abbrev pub threads : Option ℕ → Option (List ℕ) → ℕ
threads count (some l) = length l
threads (some n) none = n
threads none none = 2

-- The core of the thread of a rank: its entry in the list, or the core of that number.
abbrev pub chosen_core : Option (List ℕ) → ℕ → Option ℕ
chosen_core (some l) rank = get_elem? l rank
chosen_core none rank = some rank
