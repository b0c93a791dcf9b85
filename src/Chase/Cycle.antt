-- ===== src/Chase/Cycle.antt =====
-- The list that `create_rand_list_cl` builds is one cycle through all lines.
use native.Mathlib.Decide.{ℕ_discrete}
use altered_ccbench_fork.Common.{
  ℕ, zero, suc, ◌+◌, ◌-◌, ◌≤◌, ◌<◌, ◌≡◌, ◌≢◌, ◌∙◌, true, false, update, update_self, update_ne,
  total_full, arith, refl, sym, ap, some, Bool-cases, inl, inr, subst,
}
use altered_ccbench_fork.Machine.{Lines}
use altered_ccbench_fork.Chase.{address, Linking, link_all, create_rand_list_cl, list_seeds}
use altered_ccbench_fork.Chase.Draw.{IsFair}
use altered_ccbench_fork.Chase.Linked.{
  mark, mark-le, Linked, start-Linked, count_marked, link_one-Linked,
}

-- `order` lists the `n` lines, each once, from line 0 on; each line points to the next and the last
-- to line 0; memory beyond is as before.
pub record IsCycle (base n : ℕ) (before after : Lines) (order : ℕ → ℕ) : Type 0 where
  pub first : order 0 ≡ 0
  pub within : (i : ℕ) → i < n → order i < n
  pub distinct : (i j : ℕ) → i < j → j < n → order i ≢ order j
  pub every : (j : ℕ) → j < n → (i : ℕ) × (i < n) × (order i ≡ j)
  pub linked : (i : ℕ) → suc i < n → after (order i) ≡ address base (order (suc i))
  pub closed : after (order (n - 1)) ≡ address base 0
  pub outside : (j : ℕ) → n ≤ j → after j ≡ before j

module _ (base n fuel : ℕ) (w : Lines) where
  rounds-Linked :
      (left m : ℕ) (k : Linking)
      → m + left < n
      → IsFair n fuel left k.seeds
      → Linked base n w m k
      → (k' : Linking) × (link_all base n fuel left k ≡ some k') × Linked base n w (m + left) k'
  unfolding link_all
  rounds-Linked zero m k lt fair inv =
      let e : m ≡ m + 0 = omega arith in (k, refl, subst (λ i. Linked base n w i k) e inv)
  rounds-Linked (suc left) m k lt (reaches, fair) inv =
      let (k1, r, inv1, (d, le, same)) =
        link_one-Linked base n w m k inv fuel (omega arith) reaches in
      let (k2, r2, inv2) = rounds-Linked left (suc m) k1 (omega arith) (rw same (fair d le)) inv1 in
      let e : suc m + left ≡ m + suc left = omega arith in
      (k2, rw (link_all, r) r2, subst (λ i. Linked base n w i k2) e inv2)

  -- What the loop leaves, with the last line linked to the first.
  closes :
      (m : ℕ) (k : Linking)
      → suc m ≡ n
      → (inv : Linked base n w m k)
      → IsCycle base n w (update k.list k.idx (address base 0)) inv.order
  closes m k size inv =
      let apart : (i : ℕ) → i < m → inv.order i ≢ k.idx =
        λ i lt e. cc (ap k.used e, inv.marked i lt, inv.fresh) in
      record {
        first = inv.first;
        within = λ i lt. inv.within i (omega arith);
        distinct = λ i j lt below. inv.distinct i j lt (omega arith);
        every = λ j below. elim (ℕ_discrete j k.idx) [
          | yes here ↦ (m, omega arith, inv.last ∙ sym here)
          | no away ↦
              let (i, lt, at) = inv.visited j (all_used m k size inv j below away) in
              (i, omega arith, at)
        ];
        linked = λ i lt.
            update_ne k.list k.idx (address base 0) (inv.order i) (apart i (omega arith))
            ∙ inv.linked i (omega arith);
        closed =
            let e : n - 1 ≡ m = omega arith in
            rw (e, inv.last) (update_self k.list k.idx (address base 0));
        outside = λ j le.
            update_ne k.list k.idx (address base 0) j
              (λ e. omega (arith, e, inv.last, inv.within m (omega arith)))
            ∙ inv.outside j le;
      }
    where
      all_used :
          (m : ℕ) (k : Linking)
          → suc m ≡ n
          → Linked base n w m k
          → (j : ℕ) → j < n
          → j ≢ k.idx
          → k.used j ≡ true
      all_used m k size inv j below away = elim (Bool-cases (update k.used k.idx true j)) [
        | inl marked ↦ sym (update_ne k.used k.idx true j away) ∙ marked
        | inr free ↦ absurd (
            omega (
              arith,
              total_full mark mark-le n (update k.used k.idx true)
                  (omega (arith, count_marked base n w m k inv)) j below,
              ap mark free,
            ))
      ]

-- When the generator reaches each of the `n` lines within the fuel of each inner loop,
-- `create_rand_list_cl` ends, for a list of at least one line, and the list is one cycle: from
-- line 0 on it passes every line once and comes back to line 0. Lines beyond the list keep their
-- values.
pub create_rand_list_cl-IsCycle :
    (base n fuel : ℕ) (w : Lines)
    → 0 < n
    → IsFair n fuel (n - 1) list_seeds
    → (w' : Lines) × (create_rand_list_cl base n fuel w ≡ some w')
      × ((order : ℕ → ℕ) × IsCycle base n w w' order)
unfolding create_rand_list_cl
create_rand_list_cl-IsCycle base n fuel w pos fair =
    let (k, r, inv) =
      rounds-Linked base n fuel w (n - 1) 0
        (record { used = λ i. false; seeds = list_seeds; idx = 0; list = w }) (omega arith) fair
        (start-Linked base n w list_seeds pos) in
    (
      update k.list k.idx (address base 0),
      rw (create_rand_list_cl, r) refl,
      (inv.order, closes base n fuel w (0 + (n - 1)) k (omega arith) inv),
    )
