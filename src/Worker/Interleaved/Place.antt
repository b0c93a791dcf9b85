-- ===== src/Worker/Interleaved/Place.antt =====
-- Where one thread stands in the test with calls of `barrier_wait`, and where in the same test with
-- barriers that all threads pass together.
use altered_ccbench_fork.Common.{
  ℕ, ◌+◌, ◌≡◌, ◌≢◌, arith, update, List, ◌∷◌, if◌then◌else◌, ◌==◌, true, false, Bool-cases, inl,
  inr, ◌⊎◌, ℕ_discrete, ◌≤◌, sym, ◌∙◌,
}
use altered_ccbench_fork.Barrier.Wait.{Thread}
use altered_ccbench_fork.Barrier.Safety.{begun}
use altered_ccbench_fork.Barrier.Moves.{is_outside, Move, enter, go_on, leave}
use altered_ccbench_fork.Worker.Program.{Action, Call, call, barrier}

-- A thread's part in every barrier.
abbrev pub View : Type 0
View = ℕ → Thread

-- Out of every call of a barrier, having returned from all that are passed.
abbrev pub Rests : (ℕ → ℕ) → View → ℕ → Type 0
Rests passed v b = (is_outside (v b).pc ≡ true) × ((v b).returned ≡ passed b)

-- A thread with the programs of the two tests: out of every call, in a call of a barrier that is
-- not passed, or in one that is.
pub data Place (passed : ℕ → ℕ) (v : View) (p q : List Action) : Type 0 where
  away : q ≡ p → ((x : ℕ) → Rests passed v x) → Place passed v p q
  before :
      (b : ℕ) {r : List Action}
      → p ≡ barrier b ∷ r
      → q ≡ barrier b ∷ r
      → is_outside (v b).pc ≡ false
      → (v b).returned ≡ passed b
      → ((x : ℕ) → x ≢ b → Rests passed v x)
      → Place passed v p q
  behind :
      (b : ℕ) {r : List Action}
      → p ≡ barrier b ∷ r
      → q ≡ r
      → is_outside (v b).pc ≡ false
      → (v b).returned + 1 ≡ passed b
      → ((x : ℕ) → x ≢ b → Rests passed v x)
      → Place passed v p q

module _ (passed : ℕ → ℕ) (v : View) {p q : List Action} where
  pub Place-call :
      {a : Call} {r : List Action}
      → Place passed v p q
      → p ≡ call a ∷ r
      → (q ≡ p) × ((x : ℕ) → Rests passed v x)
  Place-call (away e h) e' = (e, h)
  Place-call (before b e eq o m h) e' = absurd (cc)
  Place-call (behind b e eq o m h) e' = absurd (cc)

  -- Of a barrier, a thread has begun as many calls as are passed, or one more that it stands in.
  pub Place-begun :
      Place passed v p q
      → (b : ℕ)
      → (begun (v b) ≡ passed b)
        ⊎ ((is_outside (v b).pc ≡ false)
            × ((v b).returned ≡ passed b)
            × ((x : ℕ) → x ≢ b → Rests passed v x)
            × ((r : List Action) × (p ≡ barrier b ∷ r) × (q ≡ barrier b ∷ r)))
  Place-begun (away e h) b = inl (ground (arith, h b))
  Place-begun (before b' {r} e eq o m h) b = elim (ℕ_discrete b b') [
    | yes same ↦ inr (rw same o, rw same m, rw same h, (r, rw same e, rw same eq))
    | no other ↦ inl (ground (arith, h b other))
  ]
  Place-begun (behind b' {r} e eq o m h) b = elim (ℕ_discrete b b') [
    | yes same ↦ inl (ground arith)
    | no other ↦ inl (ground (arith, h b other))
  ]

pub Place-update :
    (passed : ℕ → ℕ) (v : View) (ps qs : ℕ → List Action) (i : ℕ) (p q : List Action) (j : ℕ)
    → (j ≡ i → Place passed v p q)
    → (j ≢ i → Place passed v (ps j) (qs j))
    → Place passed v (update ps i p j) (update qs i q j)
Place-update passed v ps qs i p q j same other = elim (Bool-cases (i == j)) [
  | inl e ↦ rw e (same (ground arith))
  | inr e ↦ rw e (other (λ h. ground arith))
]

barrier_inj : {b b' : ℕ} {p r : List Action} → barrier b ∷ p ≡ barrier b' ∷ r → (b' ≡ b) × (r ≡ p)
barrier_inj e = (cc, cc)

module _ (passed : ℕ → ℕ) (v v' : View) (b : ℕ) (p q : List Action)
    (elsewhere : (x : ℕ) → x ≢ b → v' x ≡ v x) where
  -- The program after the access.
  abbrev rest : List Action
  rest = if is_outside (v' b).pc then p else barrier b ∷ p

  inside : is_outside (v' b).pc ≡ false → rest ≡ barrier b ∷ p
  inside e = rw e

  abbrev Kept : Type 0
  Kept = (x : ℕ) → x ≢ b → Rests passed v x

  kept : Kept → (x : ℕ) → x ≢ b → Rests passed v' x
  kept h x ne = rw (elsewhere x ne) (h x ne)

  all_rest :
      Kept → is_outside (v' b).pc ≡ true → (v' b).returned ≡ passed b → (x : ℕ) → Rests passed v' x
  all_rest h o m x = elim (ℕ_discrete x b) [ yes e ↦ rw e (o, m) | no ne ↦ kept h x ne ]

  abbrev After : Type 0
  After = Place passed v' rest q

  access-away : q ≡ barrier b ∷ p → ((x : ℕ) → Rests passed v x) → Move (v b) (v' b) → After
  access-away eq h (enter o o' m) =
      before b (inside o') eq o' (ground (arith, h b)) (kept (λ x ne. h x))
  access-away eq h (go_on o o' m) = absurd (ground (arith, h b))
  access-away eq h (leave o o' m) = absurd (ground (arith, h b))

  -- A thread cannot return from a call that is not passed.
  access-before :
      q ≡ barrier b ∷ p
      → is_outside (v b).pc ≡ false
      → (v b).returned ≡ passed b
      → Kept
      → ((v' b).returned ≤ passed b)
      → Move (v b) (v' b)
      → After
  access-before eq o r h early (enter i i' m) = absurd (ground arith)
  access-before eq o r h early (go_on i i' m) = before b (inside i') eq i' (m ∙ r) (kept h)
  access-before eq o r h early (leave i i' m) = absurd (ground arith)

  access-behind :
      q ≡ p
      → is_outside (v b).pc ≡ false
      → (v b).returned + 1 ≡ passed b
      → Kept
      → Move (v b) (v' b)
      → After
  access-behind eq o r h (enter i i' m) = absurd (ground arith)
  access-behind eq o r h (go_on i i' m) = behind b (inside i') eq i' (ground arith) (kept h)
  access-behind eq o r h (leave i i' m) = rw i' (away eq (all_rest h i' (m ∙ r)))

  pub Place-access :
      {o : List Action}
      → o ≡ barrier b ∷ p
      → Move (v b) (v' b)
      → (v' b).returned ≤ passed b
      → Place passed v o q
      → Place passed v' (if is_outside (v' b).pc then p else barrier b ∷ p) q
  Place-access e m early (away eq h) = access-away (eq ∙ e) h m
  Place-access e m early (before b' e' eq o r h) =
      let (eb, er) = barrier_inj (sym e ∙ e') in
      access-before (rw (sym eb, sym er) eq) (rw (sym eb) o) (rw (sym eb) r) (rw (sym eb) h) early m
  Place-access e m early (behind b' e' eq o r h) =
      let (eb, er) = barrier_inj (sym e ∙ e') in
      access-behind (eq ∙ er) (rw (sym eb) o) (rw (sym eb) r) (rw (sym eb) h) m
