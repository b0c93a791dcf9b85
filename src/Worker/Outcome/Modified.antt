-- ===== src/Worker/Outcome/Modified.antt =====
-- The calls of CAS_ON_MODIFIED and TAS_ON_MODIFIED, and the shape of their rounds: core 0 stores to
-- the line before the barrier, and core 1 applies the atomic operation after it.
use Prim.Native.Nat.{bit_and}
use altered_ccbench_fork.Common.{
  ℕ, zero, suc, ◌+◌, ◌-◌, ◌%◌, ◌≤◌, ◌≡◌, arith, refl, if◌then◌else◌, ◌==◌, [], ◌∷◌, ◌++◌, ap, true,
  false,
}
use altered_ccbench_fork.Machine.{Config, u64, Local, Lines}
use altered_ccbench_fork.Access.Sequential.{InRange}
use altered_ccbench_fork.Worker.Event
use altered_ccbench_fork.Worker.Program.{
  test_body, cas_0_eventually, tas, store_0_eventually, full_fence, write_word, barrier, b3,
}
use altered_ccbench_fork.Worker.Round.{Team, exec_all}
use altered_ccbench_fork.Worker.Round.Handoff.{Handoff}
use altered_ccbench_fork.Worker.Outcome.Calls.{
  Ready, Leaves, exec-cas, exec-tas, exec-store, exec-full_fence, exec-write_word, exec_all-one,
  exec_all-two, Leaves-to,
}
use altered_ccbench_fork.Worker.Outcome.Cas.{expected-mod, replacement-mod}
use altered_ccbench_fork.Worker.Outcome.Runs.{opened}

module _ (c : Config) (cl k s : ℕ) (range : InRange c cl k) (l : Local) (w : Lines)
    (ready : Ready c cl s l) where
  pub stored : c.test_sfence ≤ 2 → Leaves c cl s 0 (exec_all c k (store_0_eventually ∷ []) l w)
  stored h = exec_all-one c k cl s 0 store_0_eventually l w (exec-store c k cl s range l w ready h)

  pub stored_word :
      (v : ℕ)
      → c.test_sfence ≤ 2
      → Leaves c cl s v (exec_all c k (store_0_eventually ∷ write_word v ∷ []) l w)
  stored_word v h =
      exec_all-two c k cl s s 0 v store_0_eventually (write_word v ∷ []) l w
        (exec-store c k cl s range l w ready h)
        (λ l' w' ready' e.
          exec_all-one c k cl s v (write_word v) l' w'
            (exec-write_word c k cl s range l' w' ready' v))

  pub stored_word_fence :
      (v : ℕ)
      → c.test_sfence ≤ 2
      → Leaves c cl s v (exec_all c k (store_0_eventually ∷ write_word v ∷ full_fence ∷ []) l w)
  stored_word_fence v h =
      exec_all-two c k cl s s 0 v store_0_eventually (write_word v ∷ full_fence ∷ []) l w
        (exec-store c k cl s range l w ready h)
        (λ l' w' ready' e.
          exec_all-two c k cl s s v v (write_word v) (full_fence ∷ []) l' w'
            (exec-write_word c k cl s range l' w' ready' v)
            (λ l2 w2 ready2 e2.
              Leaves-to c cl _
                (exec_all-one c k cl s (w2 cl) full_fence l2 w2
                  (exec-full_fence c k cl s range l2 w2 ready2))
                refl e2))

  pub cas_on :
      (v : ℕ)
      → w cl ≡ v
      → Leaves c cl
          (u64 (s + (if v == k % 2 then 1 else 0)))
          (if v == k % 2 then (k + 1) % 2 else v)
          (exec_all c k (cas_0_eventually ∷ []) l w)
  cas_on v e = exec_all-one c k cl _ _ cas_0_eventually l w (
      Leaves-to c cl _ (exec-cas c k cl s range l w ready) (rw (e, expected-mod c k) (ground arith))
        (rw (e, expected-mod c k, replacement-mod c k) refl))

  pub tas_on :
      (v : ℕ)
      → w cl ≡ v
      → Leaves c cl
          (u64 (s + (if v % 256 == 255 then 0 else 1)))
          (v - v % 256 + 255)
          (exec_all c k (tas ∷ []) l w)
  tas_on v e =
      exec_all-one c k cl _ _ tas l w
        (Leaves-to c cl _ (exec-tas c k cl s range l w ready) (rw e refl) (rw e refl))

module _ (c : Config) (k : ℕ) where
  cas_on_modified_others : (i : ℕ) → 2 ≤ i → test_body c i k Event.cas_on_modified ≡ barrier 2 ∷ []
  unfolding test_body
  cas_on_modified_others zero low = absurd (omega arith)
  cas_on_modified_others (suc zero) low = absurd (omega arith)
  cas_on_modified_others (suc (suc i)) low = refl

  tas_on_modified_others : (i : ℕ) → 2 ≤ i → test_body c i k Event.tas_on_modified ≡ barrier 2 ∷ []
  unfolding test_body
  tas_on_modified_others zero low = absurd (omega arith)
  tas_on_modified_others (suc zero) low = absurd (omega arith)
  tas_on_modified_others (suc (suc i)) low = refl

  module _ (n : ℕ) (s : Team) where
    pub success-Handoff :
        c.test_ao_success ≡ true
        → Handoff n
            (store_0_eventually ∷ write_word (bit_and k 1) ∷ [])
            (cas_0_eventually ∷ [])
            2
            (4 ∷ [])
            (opened c Event.cas_on_modified k s)
    unfolding test_body
    success-Handoff e = record {
      zeroth = rw e refl;
      oneth = refl;
      others = λ i low lt. ap (λ p. p ++ b3 ∷ []) (cas_on_modified_others i low);
    }

    pub plain-Handoff :
        c.test_ao_success ≡ false
        → Handoff n
            (store_0_eventually ∷ [])
            (cas_0_eventually ∷ [])
            2
            (4 ∷ [])
            (opened c Event.cas_on_modified k s)
    unfolding test_body
    plain-Handoff e = record {
      zeroth = rw e refl;
      oneth = refl;
      others = λ i low lt. ap (λ p. p ++ b3 ∷ []) (cas_on_modified_others i low);
    }

    pub free-Handoff :
        c.test_ao_success ≡ true
        → Handoff n
            (store_0_eventually ∷ [])
            (tas ∷ [])
            2
            (4 ∷ [])
            (opened c Event.tas_on_modified k s)
    unfolding test_body
    free-Handoff e = record {
      zeroth = rw e refl;
      oneth = refl;
      others = λ i low lt. ap (λ p. p ++ b3 ∷ []) (tas_on_modified_others i low);
    }

    pub taken-Handoff :
        c.test_ao_success ≡ false
        → Handoff n
            (store_0_eventually ∷ write_word 0xFFFFFFFF ∷ full_fence ∷ [])
            (tas ∷ [])
            2
            (4 ∷ [])
            (opened c Event.tas_on_modified k s)
    unfolding test_body
    taken-Handoff e = record {
      zeroth = rw e refl;
      oneth = refl;
      others = λ i low lt. ap (λ p. p ++ b3 ∷ []) (tas_on_modified_others i low);
    }
