-- ===== src/Access/Rounds.antt =====
-- The `do … while (cln > 0)` loops: what holds after one, once the generator is known to draw 0.
use altered_ccbench_fork.Common.{
  lt→ltb, ℕ, zero, suc, ◌^◌, ◌≤◌, ◌<◌, ◌≡◌, ◌⊎◌, inl, inr, ltb, arith, true, false,
}
use altered_ccbench_fork.Random.{Seeds, xorshf96, clrand_mask}
use altered_ccbench_fork.Random.Bounds.{clrand_mask-lt}
use altered_ccbench_fork.Machine.{
  Config, M, Local, Lines, Outcome, ok, fault, unfinished, clrand, proceed,
}
use altered_ccbench_fork.Access.Atomic.{eventually}

-- The outcome is a normal one, and satisfies `P`.
abbrev pub Returns : {A : Type 0} → (A → Local → Lines → Type 0) → Outcome A → Type 0
Returns P (ok a l w) = P a l w
Returns P fault = ⊥
Returns P unfinished = ⊥

pub Returns-proceed :
    {A B : Type 0} (P : A → Local → Lines → Type 0) (Q : B → Local → Lines → Type 0) (o : Outcome A)
    (f : A → M B)
    → Returns P o
    → ((a : A) (l : Local) (w : Lines) → P a l w → Returns Q (f a l w))
    → Returns Q (proceed o f)
Returns-proceed P Q (ok a l w) f p k = k a l w p
Returns-proceed P Q fault f p k = absurd p
Returns-proceed P Q unfinished f p k = absurd p

pub Returns-weaken :
    {A : Type 0} (P Q : A → Local → Lines → Type 0) (o : Outcome A)
    → Returns P o
    → ((a : A) (l : Local) (w : Lines) → P a l w → Q a l w)
    → Returns Q o
Returns-weaken P Q (ok a l w) p k = k a l w p
Returns-weaken P Q fault p k = absurd p
Returns-weaken P Q unfinished p k = absurd p

module _ (c : Config) where
  -- One of the next `fuel` draws is 0.
  abbrev pub Hits : ℕ → Seeds → Type 0
  Hits zero s = ⊥
  Hits (suc fuel) s = (clrand_mask c.test_stride (xorshf96 s).z ≡ 0) ⊎ Hits fuel (xorshf96 s)

  abbrev pub after : ℕ → Seeds → Seeds
  after zero s = s
  after (suc k) s = after k (xorshf96 s)

  -- However often the generator has been called, it draws 0 within the fuel of a loop.
  abbrev pub IsLively : Seeds → Type 0
  IsLively s = (k : ℕ) → Hits c.fuel (after k s)

  pub IsLively-next : (s : Seeds) → IsLively s → IsLively (xorshf96 s)
  IsLively-next s h k = h (suc k)

  -- With stride 1 every draw is 0.
  Hits-one : (fuel : ℕ) (s : Seeds) → c.test_stride ≡ 1 → 0 < fuel → Hits fuel s
  Hits-one zero s e h = absurd (omega arith)
  Hits-one (suc fuel) s e h =
      inl (rw e (omega (arith, clrand_mask-lt 1 (xorshf96 s).z (omega arith) (omega arith))))

  pub IsLively-one : (s : Seeds) → c.test_stride ≡ 1 → 0 < c.fuel → IsLively s
  IsLively-one s e h k = Hits-one c.fuel (after k s) e h

  module _ {A : Type 0} (body : ℕ → M A) (I : Local → Lines → Type 0)
      (Q : A → Local → Lines → Type 0) (pos : 1 ≤ c.test_stride) (small : c.test_stride < 2 ^ 32)
      (reseed : (l : Local) (w : Lines) → I l w → I (record l { seeds = xorshf96 l.seeds }) w)
      (round : (cln : ℕ) (l : Local) (w : Lines)
        → 0 < cln
        → cln < c.test_stride
        → I l w
        → Returns (λ a l' w'. (l'.seeds ≡ l.seeds) × I l' w') (body cln l w))
      (last : (l : Local) (w : Lines) → I l w → Returns Q (body 0 l w)) where
    draw_lt : (s : Seeds) → clrand_mask c.test_stride s.z < c.test_stride
    draw_lt s = clrand_mask-lt c.test_stride s.z pos small

    abbrev Rest : ℕ → Type 0
    Rest fuel =
        (l : Local) (w : Lines) → Hits fuel l.seeds → I l w → Returns Q (eventually c fuel body l w)

    after_draw :
        (fuel : ℕ)
        → Rest fuel
        → (cln : ℕ) (l : Local) (w : Lines) → cln < c.test_stride
        → (cln ≡ 0) ⊎ Hits fuel l.seeds
        → I l w
        → Returns Q (
            proceed (body cln l w) (λ a l' w'. elim (ltb 0 cln) [
              | true ↦ eventually c fuel body l' w'
              | false ↦ ok a l' w'
            ]))
    after_draw fuel rest zero l w lt h i =
        Returns-proceed Q Q (body 0 l w) _ (last l w i) (λ a l' w' q. q)
    after_draw fuel rest (suc d) l w lt h i =
        Returns-proceed (λ a l' w'. (l'.seeds ≡ l.seeds) × I l' w') Q (body (suc d) l w) _
          (round (suc d) l w (omega arith) lt i)
          λ a l' w' q.
            let again : Hits fuel l.seeds = elim h [ inl e ↦ absurd (omega arith) | inr r ↦ r ] in
            rw (lt→ltb 0 (suc d) (omega arith)) (rest l' w' (rw (q.0) again) q.1)

    -- The rule for such a loop: `I` holds before each round, `Q` after the round that draws 0.
    pub eventually_rule : (fuel : ℕ) → Rest fuel
    unfolding eventually clrand
    eventually_rule zero l w h i = absurd h
    eventually_rule (suc fuel) l w h i =
        after_draw fuel (eventually_rule fuel) (clrand_mask c.test_stride (xorshf96 l.seeds).z)
          (record l { seeds = xorshf96 l.seeds }) w (draw_lt (xorshf96 l.seeds)) h (reseed l w i)
