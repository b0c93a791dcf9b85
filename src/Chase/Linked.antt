-- ===== src/Chase/Linked.antt =====
-- The invariant of the outer loop of `create_rand_list_cl`, and that each round keeps it.
use native.Mathlib.Decide.{ℕ_discrete}
use altered_ccbench_fork.Common.{
  ℕ, suc, ◌≤◌, ◌<◌, ◌≡◌, ◌≢◌, ◌∙◌, inl, inr, Bool, true, false, if◌then◌else◌, update, update_self,
  update_ne, total, total-update, total_gap, total-eq-zero, arith, refl, sym, ap, Bool-cases, some,
  dec_lt,
}
use altered_ccbench_fork.Random.{Seeds}
use altered_ccbench_fork.Machine.{Lines}
use altered_ccbench_fork.Chase.{address, Linking, link_one}
use altered_ccbench_fork.Chase.Draw.{Draws, later, Draws-unused}

-- 1 for a used line.
abbrev pub mark : Bool → ℕ
mark b = if b then 1 else 0

pub mark-le : (b : Bool) → mark b ≤ 1
mark-le true = omega arith
mark-le false = omega arith

-- After `m` rounds: `order i` is the line that round `i` started from.
pub record Linked (base n : ℕ) (w : Lines) (m : ℕ) (k : Linking) : Type 0 where
  pub order : ℕ → ℕ
  pub first : order 0 ≡ 0
  pub last : order m ≡ k.idx
  pub within : (i : ℕ) → i ≤ m → order i < n
  pub linked : (i : ℕ) → i < m → k.list (order i) ≡ address base (order (suc i))
  pub marked : (i : ℕ) → i < m → k.used (order i) ≡ true
  pub visited : (j : ℕ) → k.used j ≡ true → (i : ℕ) × (i < m) × (order i ≡ j)
  pub fresh : k.used k.idx ≡ false
  pub distinct : (i j : ℕ) → i < j → j ≤ m → order i ≢ order j
  pub count : total mark n k.used ≡ m
  pub outside : (j : ℕ) → n ≤ j → k.list j ≡ w j

module _ (base n : ℕ) (w : Lines) where
  pub start-Linked :
      (s : Seeds)
      → 0 < n
      → Linked base n w 0 (record { used = λ i. false; seeds = s; idx = 0; list = w })
  start-Linked s pos = record {
    order = λ i. 0;
    first = refl;
    last = refl;
    within = λ i le. pos;
    linked = λ i lt. absurd (omega arith);
    marked = λ i lt. absurd (omega arith);
    visited = λ j e. absurd (cc e);
    fresh = refl;
    distinct = λ i j lt le e. omega arith;
    count = total-eq-zero mark n (λ i. false) (λ i lt. refl);
    outside = λ j le. refl;
  }

  module _ (m : ℕ) (k : Linking) (inv : Linked base n w m k) where
    open inv use {
      order, first, last, within, linked, marked, visited, fresh, distinct, count, outside,
    }

    -- The lines used once the current one is marked.
    pub count_marked : total mark n (update k.used k.idx true) ≡ suc m
    count_marked =
        let here : k.idx < n = rw (sym last) (within m (omega arith)) in
        omega (arith, total-update mark n k.used k.idx true here, count, ap mark fresh)

    some_unused : suc m < n → (j : ℕ) × (j < n) × (update k.used k.idx true j ≡ false)
    some_unused lt =
        let (j, below, e) =
          total_gap mark n (update k.used k.idx true) (omega (arith, count_marked)) in
        (
          j,
          below,
          elim (Bool-cases (update k.used k.idx true j)) [
            | inl yes_ ↦ absurd (omega (arith, e, ap mark yes_))
            | inr no_ ↦ no_
          ],
        )

    module _ (nxt : ℕ) (s : Seeds) (below : nxt < n)
        (unused : update k.used k.idx true nxt ≡ false) where
      abbrev next : Linking
      next = record {
        used = update k.used k.idx true;
        seeds = s;
        idx = nxt;
        list = update k.list k.idx (address base nxt);
      }

      abbrev extended : ℕ → ℕ
      extended = update order (suc m) nxt

      old : (i : ℕ) → i ≤ m → extended i ≡ order i
      old i le = update_ne order (suc m) nxt i (λ e. omega arith)

      new : extended (suc m) ≡ nxt
      new = update_self order (suc m) nxt

      -- The lines left before are not the current one.
      passed : (i : ℕ) → i < m → order i ≢ k.idx
      passed i lt e = cc (ap k.used e, marked i lt, fresh)

      marked_now : (i : ℕ) → i ≤ m → update k.used k.idx true (order i) ≡ true
      marked_now i le = elim (dec_lt i m) [
        | yes lt ↦ update_ne k.used k.idx true (order i) (passed i lt) ∙ marked i lt
        | no ge ↦ let e : i ≡ m = omega arith in rw (e, last) (update_self k.used k.idx true)
      ]

      linked_now :
          (i : ℕ)
          → i ≤ m
          → update k.list k.idx (address base nxt) (order i) ≡ address base (extended (suc i))
      linked_now i le = elim (dec_lt i m) [
        | yes lt ↦
            update_ne k.list k.idx (address base nxt) (order i) (passed i lt)
            ∙ linked i lt
            ∙ ap (address base) (sym (old (suc i) lt))
        | no ge ↦
            let e : i ≡ m = omega arith in
            rw (e, last, new) (update_self k.list k.idx (address base nxt))
      ]

      visited_now :
          (j : ℕ) → update k.used k.idx true j ≡ true → (i : ℕ) × (i < suc m) × (extended i ≡ j)
      visited_now j e = elim (ℕ_discrete j k.idx) [
        | yes here ↦ (m, omega arith, old m (omega arith) ∙ last ∙ sym here)
        | no away ↦
            let (i, lt, at) = visited j (sym (update_ne k.used k.idx true j away) ∙ e) in
            (i, omega arith, old i (omega arith) ∙ at)
      ]

      distinct_now : (i j : ℕ) → i < j → j ≤ suc m → extended i ≢ extended j
      distinct_now i j lt le e = elim (dec_lt m j) [
        | no before ↦
            distinct i j lt (omega arith) (sym (old i (omega arith)) ∙ e ∙ old j (omega arith))
        | yes at ↦
            let top : j ≡ suc m = omega arith in
            let same : order i ≡ nxt = sym (old i (omega arith)) ∙ e ∙ ap extended top ∙ new in
            cc (sym (ap (update k.used k.idx true) same) ∙ marked_now i (omega arith), unused)
      ]

      next-Linked : Linked base n w (suc m) next
      next-Linked = record {
        order = extended;
        first = old 0 (omega arith) ∙ first;
        last = new;
        within = λ i le. elim (dec_lt m i) [
          | yes at ↦ let top : i ≡ suc m = omega arith in rw (top, new) below
          | no before ↦ rw (old i (omega arith)) (within i (omega arith))
        ];
        linked = λ i lt.
            ap (update k.list k.idx (address base nxt)) (old i (omega arith))
            ∙ linked_now i (omega arith);
        marked = λ i lt.
            ap (update k.used k.idx true) (old i (omega arith)) ∙ marked_now i (omega arith);
        visited = visited_now;
        fresh = unused;
        distinct = distinct_now;
        count = count_marked;
        outside = λ j le.
            update_ne k.list k.idx (address base nxt) j
              (λ e. omega (arith, e, last, within m (omega arith)))
            ∙ outside j le;
      }

    -- A round that can reach every line.
    pub link_one-Linked :
        (fuel : ℕ)
        → suc m < n
        → ((j : ℕ) → j < n → Draws n fuel k.seeds j)
        → (k' : Linking) × (link_one base n fuel k ≡ some k')
          × Linked base n w (suc m) k'
          × ((d : ℕ) × (d ≤ fuel) × (k'.seeds ≡ later d k.seeds))
    unfolding link_one
    link_one-Linked fuel lt fair =
        let (j, lj, free) = some_unused lt in
        let r =
          Draws-unused n fuel (update k.used k.idx true) k.seeds j (omega arith) free (fair j lj) in
        let s = later r.steps k.seeds in
        (
          next r.nxt s r.below r.unused,
          rw (link_one, r.returns) refl,
          next-Linked r.nxt s r.below r.unused,
          (r.steps, r.bounded, refl),
        )
