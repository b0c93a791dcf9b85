-- ===== src/Tests/Summaries.antt =====
-- The theorems on the summary over the cores at concrete inputs: two threads with two samples each.
use altered_ccbench_fork.Common.{
  ℕ, ◌≡◌, refl, arith, false, List, [], ◌∷◌, some, if◌then◌else◌, ◌==◌,
}
use altered_ccbench_fork.Worker.Event
use altered_ccbench_fork.Statistics.Deviation.{limited, limit_vals, summarised, get_abs_deviation}
use altered_ccbench_fork.Statistics.Summary.{
  CoreSummary, Collection, take, first_valid, all_turns, cross_core_summary,
}
use altered_ccbench_fork.Statistics.Cores.{IsOrder, IsComparable, Shows}
use altered_ccbench_fork.Statistics.Collected.{averages, all_turns-Shows}
use altered_ccbench_fork.Tests.Doubles.{Twentieths, twentieths}
use altered_ccbench_fork.Tests.Data.{config}

ascending : IsOrder Twentieths twentieths.lt twentieths.is_finite
ascending = record {
  irreflexive = λ a f. ground arith;
  asymmetric = λ a b e. ground arith;
  negatively_transitive = λ a b c f g h e e'. ground arith;
}

descending : IsOrder Twentieths (λ a b. twentieths.lt b a) twentieths.is_finite
descending = record {
  irreflexive = λ a f. ground arith;
  asymmetric = λ a b e. ground arith;
  negatively_transitive = λ a b c f g h e e'. ground arith;
}

comparable : IsComparable Twentieths
comparable = record {
  ascending = ascending;
  descending = descending;
  zero_finite = refl;
  max_finite = refl;
}

-- Rank 0 has the samples 100 and 104, rank 1 has 50 and 52.
abbrev samples : ℕ → ℕ → List ℕ
samples rank store = if rank == 0 then 100 ∷ 104 ∷ [] else 50 ∷ 52 ∷ []

abbrev blank : CoreSummary Twentieths
blank = record { store = λ i. (get_abs_deviation []).0; store_valid = λ i. false }

abbrev at_end : Collection Twentieths
at_end = record { core_summaries = some (λ j. blank); pfd_store = samples }

-- The two threads run on the cores 4 and 7.
abbrev places : ℕ → ℕ
places rank = if rank == 0 then 4 else 7

all_turns-Shows_example :
    (cores' : ℕ → CoreSummary Twentieths) × ((all_turns config Event.cas 0 2 0
        at_end).core_summaries
      ≡ some cores')
    × Shows (averages config 0 Event.cas places samples 2 0) (cross_core_summary 2 places cores')
unfolding get_abs_deviation limit_vals limited summarised take first_valid
all_turns-Shows_example =
    all_turns-Shows config 0 Event.cas places (λ j. blank) at_end comparable (omega arith) refl
      (λ j. refl) ((refl, refl), ((refl, refl), tt))
