-- ===== src/Access/Sequential.antt =====
-- What each measured operation does to the line that `cl` points to.
use altered_ccbench_fork.Common.{
  ℕ, ◌+◌, ◌^◌, ◌≤◌, ◌<◌, ◌≡◌, ◌⊎◌, ◌≢◌, ◌∙◌, ap, sym, lt→ltb, inl, inr, arith, refl,
}
use altered_ccbench_fork.Random.{xorshf96}
use altered_ccbench_fork.Machine.{Config, M, Local, Lines, pfdi, pfdo, getticks, timed}
use altered_ccbench_fork.Access.Atomic.{eventually}
use altered_ccbench_fork.Access.Rounds.{
  Returns, IsLively, IsLively-next, eventually_rule, Returns-proceed, Returns-weaken,
}

-- The `test_stride` lines from `cl` on are mapped, and sample `reps` is allocated.
pub record InRange (c : Config) (cl reps : ℕ) : Type 0 where
  pub pos : 1 ≤ c.test_stride
  pub small : c.test_stride < 2 ^ 32
  pub room : cl + c.test_stride ≤ c.test_cache_line_num
  pub sample : reps < c.test_reps

-- What an operation leaves alone: lines outside its stride, and the thread's other variables.
pub record Frame (c : Config) (cl : ℕ) (l : Local) (w : Lines) (l' : Local) (w' : Lines)
    : Type 0 where
  pub outside : (j : ℕ) → (j < cl) ⊎ (cl + c.test_stride ≤ j) → w' j ≡ w j
  pub same_id : l'.id ≡ l.id
  pub same_line : l'.cache_line ≡ l.cache_line
  pub same_sum : l'.sum ≡ l.sum
  pub lively : IsLively c l'.seeds

-- What one access leaves alone of the thread's variables.
pub record Quiet (l l' : Local) : Type 0 where
  pub seeds : l'.seeds ≡ l.seeds
  pub id : l'.id ≡ l.id
  pub cache_line : l'.cache_line ≡ l.cache_line
  pub sum : l'.sum ≡ l.sum

module _ (c : Config) (cl reps : ℕ) (range : InRange c cl reps) (l : Local) (w : Lines)
    (lively : IsLively c l.seeds) where
  open range use {pos, small, room, sample}

  -- An access at `cl + cln` that returns `val` and leaves `new` of the value there.
  abbrev pub Accesses : {A : Type 0} → (ℕ → M A) → (ℕ → ℕ → A) → (ℕ → ℕ → ℕ) → Type 0
  Accesses op val new =
      (cln : ℕ) (l1 : Local) (w1 : Lines)
      → cln < c.test_stride
      → l1.id ≡ l.id
      → Returns
          (λ a l' w'.
            Quiet l1 l'
            × (a ≡ val cln (w1 (cl + cln)))
            × (w' (cl + cln) ≡ new cln (w1 (cl + cln)))
            × ((j : ℕ) → j ≢ cl + cln → w' j ≡ w1 j))
          (op cln l1 w1)

  -- Line `cl` is as it was.
  abbrev Kept : Local → Lines → Type 0
  Kept l' w' = Frame c cl l w l' w' × (w' cl ≡ w cl)

  Kept-start : Kept l w
  Kept-start = (
    record {
      outside = λ j h. refl;
      same_id = refl;
      same_line = refl;
      same_sum = refl;
      lively = lively;
    },
    refl,
  )

  Kept-reseed :
      (l' : Local) (w' : Lines) → Kept l' w' → Kept (record l' { seeds = xorshf96 l'.seeds }) w'
  Kept-reseed l' w' (f, e) = (
    record {
      outside = f.outside;
      same_id = f.same_id;
      same_line = f.same_line;
      same_sum = f.same_sum;
      lively = IsLively-next c l'.seeds f.lively;
    },
    e,
  )

  Frame-access :
      (l1 l2 : Local) (w1 w2 : Lines) (cln : ℕ)
      → cln < c.test_stride
      → Frame c cl l w l1 w1
      → Quiet l1 l2
      → ((j : ℕ) → j ≢ cl + cln → w2 j ≡ w1 j)
      → Frame c cl l w l2 w2
  Frame-access l1 l2 w1 w2 cln lt f q same = record {
    outside =
        λ j h. same j (λ e. elim h [ inl p ↦ omega arith | inr p ↦ omega arith ]) ∙ f.outside j h;
    same_id = q.id ∙ f.same_id;
    same_line = q.cache_line ∙ f.same_line;
    same_sum = q.sum ∙ f.same_sum;
    lively = rw (q.seeds) (f.lively);
  }

  module _ {A : Type 0} (s : ℕ) (store : s < 2) (op : ℕ → M A) (val : ℕ → ℕ → A) (new : ℕ → ℕ → ℕ)
      (spec : Accesses op val new) where
    timed_access :
        (cln : ℕ) (l1 : Local) (w1 : Lines)
        → cln < c.test_stride
        → l1.id ≡ l.id
        → Returns
            (λ a l' w'.
              Quiet l1 l'
              × (a ≡ val cln (w1 (cl + cln)))
              × (w' (cl + cln) ≡ new cln (w1 (cl + cln)))
              × ((j : ℕ) → j ≢ cl + cln → w' j ≡ w1 j))
            (timed c s reps (op cln) l1 w1)
    unfolding pfdi pfdo getticks
    timed_access cln l1 w1 lt same =
        Returns-proceed _ _ (op cln _ w1) _ (spec cln _ w1 lt same) λ a l' w' (q, ea, en, ef).
          rw (lt→ltb s 2 store, lt→ltb reps c.test_reps sample)
            (
              record { seeds = q.seeds; id = q.id; cache_line = q.cache_line; sum = q.sum },
              ea,
              en,
              ef,
            )

    -- The whole loop: only the last round touches line `cl`.
    pub timed_rounds :
        Returns
          (λ a l' w'. Frame c cl l w l' w' × (a ≡ val 0 (w cl)) × (w' cl ≡ new 0 (w cl)))
          (eventually c c.fuel (λ cln. timed c s reps (op cln)) l w)
    timed_rounds =
        eventually_rule c (λ cln. timed c s reps (op cln)) Kept
          (λ a l' w'. Frame c cl l w l' w' × (a ≡ val 0 (w cl)) × (w' cl ≡ new 0 (w cl))) pos small
          Kept-reseed
          (λ cln l1 w1 off lt (f, e).
            Returns-weaken _ _ (timed c s reps (op cln) l1 w1) (timed_access cln l1 w1 lt f.same_id)
              λ a l' w' (q, ea, en, ef).
                (q.seeds, (Frame-access l1 l' w1 w' cln lt f q ef, ef cl (omega arith) ∙ e)))
          (λ l1 w1 (f, e).
            Returns-weaken _ _ (timed c s reps (op 0) l1 w1) (timed_access 0 l1 w1 pos f.same_id)
              λ a l' w' (q, ea, en, ef).
                let at : cl + 0 ≡ cl = omega arith in
                let here : w1 (cl + 0) ≡ w cl = ap w1 at ∙ e in
                (
                  Frame-access l1 l' w1 w' 0 pos f q ef,
                  ea ∙ ap (val 0) here,
                  ap w' (sym at) ∙ en ∙ ap (new 0) here,
                ))
          c.fuel l w (lively 0) Kept-start
