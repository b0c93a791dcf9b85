-- ===== src/Worker/Interleaved/Meeting.antt =====
-- The threads pass a barrier together, in the test with common barriers, when the last of them has
-- begun its call of `barrier_wait`.
use altered_ccbench_fork.Common.{
  ℕ, ◌+◌, ◌≤◌, ◌<◌, ◌≡◌, ◌≢◌, refl, arith, update, List, [], ◌∷◌, if◌then◌else◌, ltb, inl, inr,
  ℕ_discrete, dec_lt, total, total_gap, total_full,
}
use altered_ccbench_fork.Machine.{Config}
use altered_ccbench_fork.Barrier.Wait.{Thread}
use altered_ccbench_fork.Barrier.System
use altered_ccbench_fork.Barrier.Safety.{begun}
use altered_ccbench_fork.Barrier.Moves.{begun_inside}
use altered_ccbench_fork.Worker.Program.{Action, barrier}
use altered_ccbench_fork.Worker.Round
use altered_ccbench_fork.Worker.Interleaved.{State}
use altered_ccbench_fork.Worker.Interleaved.Place.{View, Place, behind, Place-begun}

abbrev pub view : State → ℕ → View
view f i b = (f.barriers b).threads i

-- `passed` counts the times that all threads have passed a barrier together.
pub record Simulates (n : ℕ) (passed : ℕ → ℕ) (f : State) (t : Round.Team) : Type 0 where
  pub reached : (b : ℕ) → System.Reach n (f.barriers b)
  pub place : (i : ℕ) → i < n → Place passed (view f i) (f.team.programs i) (t.programs i)
  pub same_locals : t.locals ≡ f.team.locals
  pub same_lines : t.lines ≡ f.team.lines
  pub someone : (b : ℕ) → (j : ℕ) × (j < n) × (begun (view f j b) ≡ passed b)

-- 1 for a thread that has begun more calls than `k`.
abbrev ahead : ℕ → Thread → ℕ
ahead k t = if ltb k (begun t) then 1 else 0

abbrev tail : List Action → List Action
tail [] = []
tail (a ∷ p) = p

module _ (c : Config) (n reps : ℕ) where
  -- What a step of the threads comes to in the test with common barriers.
  unfoldable pub Follows : (t : Round.Team) → State → Type 0
  Follows t f =
      (passed : ℕ → ℕ) × (u : Round.Team) × (Simulates n passed f u)
      × ((s : Round.Team) → Round.Reach c n reps s t → Round.Reach c n reps s u)

  module _ (passed : ℕ → ℕ) (f : State) (t : Round.Team) (b : ℕ)
      (reached : (x : ℕ) → System.Reach n (f.barriers x))
      (place : (i : ℕ) → i < n → Place passed (view f i) (f.team.programs i) (t.programs i))
      (same_locals : t.locals ≡ f.team.locals) (same_lines : t.lines ≡ f.team.lines)
      (others : (x : ℕ) → x ≢ b → (j : ℕ) × (j < n) × (begun (view f j x) ≡ passed x)) where
    someone_behind :
        total (ahead (passed b)) n (f.barriers b).threads < n
        → (j : ℕ) × (j < n) × (begun (view f j b) ≡ passed b)
    someone_behind some =
        let (j, lt, e) = total_gap (ahead (passed b)) n (f.barriers b).threads some in
        (
          j,
          lt,
          elim (Place-begun passed (view f j) (place j lt) b) [
            | inl h ↦ h
            | inr (o, m, h, w) ↦ absurd (ground (arith, begun_inside (view f j b) o))
          ],
        )

    waiting : total (ahead (passed b)) n (f.barriers b).threads < n → Follows t f
    unfolding Follows
    waiting some = (
      passed,
      t,
      record {
        reached = reached;
        place = place;
        same_locals = same_locals;
        same_lines = same_lines;
        someone =
            λ x. elim (ℕ_discrete x b) [ yes e ↦ rw e (someone_behind some) | no ne ↦ others x ne ];
      },
      λ s r. r,
    )

    module _ (all : n ≤ total (ahead (passed b)) n (f.barriers b).threads) where
      abbrev met : ℕ → ℕ
      met = update passed b (passed b + 1)

      arrived :
          (i : ℕ)
          → i < n
          → (begun (view f i b) ≡ met b)
            × (t.programs i ≡ barrier b ∷ tail (t.programs i))
            × Place met (view f i) (f.team.programs i) (tail (t.programs i))
      arrived i lt =
          let full : 1 ≤ ahead (passed b) (view f i b) =
            total_full (ahead (passed b)) (λ u. ground arith) n (f.barriers b).threads all i lt in
          elim (Place-begun passed (view f i) (place i lt) b) [
            | inl h ↦ absurd (ground arith)
            | inr (o, m, h, (r, e, eq)) ↦ (
              ground (arith, begun_inside (view f i b) o),
              rw eq refl,
              behind b e (rw eq refl) o (ground arith)
                  (λ x ne. ((h x ne).0, ground (arith, h x ne))),
            )
          ]

      meeting : 0 < n → Follows t f
      unfolding Follows
      meeting pos = (
        met,
        record t { programs = λ i. tail (t.programs i) },
        record {
          reached = reached;
          place = λ i lt. (arrived i lt).2;
          same_locals = same_locals;
          same_lines = same_lines;
          someone = λ x. elim (ℕ_discrete x b) [
            | yes e ↦ rw e (0, pos, (arrived 0 pos).0)
            | no ne ↦ let (j, lt, e) = others x ne in (j, lt, ground arith)
          ];
        },
        λ s r. Round.next r (Round.meet b (λ i. tail (t.programs i)) (λ i lt. (arrived i lt).1)),
      )

    pub settle : 0 < n → Follows t f
    settle pos = elim (dec_lt (total (ahead (passed b)) n (f.barriers b).threads) n) [
      | yes some ↦ waiting some
      | no all ↦ meeting (omega arith) pos
    ]
