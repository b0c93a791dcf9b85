-- ===== src/Chase/Draw.antt =====
-- The inner loop of `create_rand_list_cl`, once the generator is known to reach every line.
use altered_ccbench_fork.Common.{
  true, ◌∙◌, ℕ, zero, suc, ◌%◌, ◌≤◌, ◌<◌, ◌≡◌, ◌⊎◌, inl, inr, Bool, false, arith, refl, Bool-cases,
  some,
}
use native.Mathlib.Nat.{mod-lt}
use altered_ccbench_fork.Random.{Seeds, xorshf96}
use altered_ccbench_fork.Chase.{draw_unused}

-- One of the next `fuel` draws of a line below `n` is line `j`.
abbrev pub Draws : ℕ → ℕ → Seeds → ℕ → Type 0
Draws n zero s j = ⊥
Draws n (suc fuel) s j = ((xorshf96 s).z % n ≡ j) ⊎ Draws n fuel (xorshf96 s) j

abbrev pub later : ℕ → Seeds → Seeds
later zero s = s
later (suc d) s = later d (xorshf96 s)

-- In `left` rounds that each make at most `fuel` draws, each line is among the draws of each round.
abbrev pub IsFair : ℕ → ℕ → ℕ → Seeds → Type 0
IsFair n fuel zero s = Unit {0}
IsFair n fuel (suc left) s =
    ((j : ℕ) → j < n → Draws n fuel s j) × ((d : ℕ) → d ≤ fuel → IsFair n fuel left (later d s))

-- A loop that can reach an unused line ends, at an unused line.
pub record Drawn (n fuel : ℕ) (used : ℕ → Bool) (s : Seeds) : Type 0 where
  pub nxt : ℕ
  pub steps : ℕ
  pub returns : draw_unused n fuel used s ≡ some (nxt, later steps s)
  pub unused : used nxt ≡ false
  pub below : nxt < n
  pub bounded : steps ≤ fuel

draw_again :
    (n fuel : ℕ) (used : ℕ → Bool) (s : Seeds)
    → used ((xorshf96 s).z % n) ≡ true
    → draw_unused n (suc fuel) used s ≡ draw_unused n fuel used (xorshf96 s)
unfolding draw_unused
draw_again n fuel used s taken = rw (draw_unused, taken) refl

draw_done :
    (n fuel : ℕ) (used : ℕ → Bool) (s : Seeds)
    → used ((xorshf96 s).z % n) ≡ false
    → draw_unused n (suc fuel) used s ≡ some ((xorshf96 s).z % n, xorshf96 s)
unfolding draw_unused
draw_done n fuel used s free = rw (draw_unused, free) refl

pub Draws-unused :
    (n fuel : ℕ) (used : ℕ → Bool) (s : Seeds) (j : ℕ)
    → 0 < n
    → used j ≡ false
    → Draws n fuel s j
    → Drawn n fuel used s
unfolding draw_unused
Draws-unused n zero used s j pos free h = absurd h
Draws-unused n (suc fuel) used s j pos free h = elim (Bool-cases (used ((xorshf96 s).z % n))) [
  | inr fresh ↦ record {
    nxt = (xorshf96 s).z % n;
    steps = 1;
    returns = draw_done n fuel used s fresh;
    unused = fresh;
    below = mod-lt (xorshf96 s).z pos;
    bounded = omega arith;
  }
  | inl taken ↦
      let again : Draws n fuel (xorshf96 s) j = elim h [
        | inl e ↦ absurd (cc (e, taken, free))
        | inr r ↦ r
      ] in
      let r = Draws-unused n fuel used (xorshf96 s) j pos free again in
      record {
        nxt = r.nxt;
        steps = suc r.steps;
        returns = draw_again n fuel used s taken ∙ r.returns;
        unused = r.unused;
        below = r.below;
        bounded = omega (arith, r.bounded);
      }
]
