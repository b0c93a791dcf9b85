-- ===== src/Barrier/Safety.antt =====
-- What `barrier_wait` guarantees to the threads that call it.
use altered_ccbench_fork.Common.{ℕ, ◌+◌, ◌^◌, ◌≤◌, ◌<◌, ◌≡◌, arith, false, total_gap, dec_lt}
use altered_ccbench_fork.Barrier.Wait.{Thread, outside, blocked}
use altered_ccbench_fork.Barrier.System.{System, Reach}
use altered_ccbench_fork.Barrier.Invariant.{Reach-Inv, arrived, Inv, crossed}

-- Calls of `barrier_wait` that the thread has begun.
abbrev pub begun : Thread → ℕ
begun t = t.returned + elim t.pc [ outside ↦ 0 | _ ↦ 1 ]

-- In every interleaving of fewer than 2^64 threads, no thread has returned from more calls of
-- `barrier_wait` than any other thread has begun.
pub no_early_return :
    {n : ℕ} {s : System}
    → n < 2 ^ 64
    → Reach n s
    → (i j : ℕ) → i < n
    → j < n
    → (s.threads i).returned ≤ begun (s.threads j)
no_early_return small r i j li lj =
    let (m, inv) = Reach-Inv (omega arith) small r in ground (arith, inv.near i li, inv.near j lj)

-- The least thread of a stage, and the threads that wait to leave the stage before, go on.
module _ {n m : ℕ} {s : System} (inv : Inv n s m) (i : ℕ) (lt : i < n) where
  unblocked : arrived (s.threads i) ≤ m → blocked s.bar (s.threads i).pc ≡ false
  unfolding blocked
  unblocked h = ground (arith, inv.near i lt, inv.full, inv.parts)

-- In every reachable state in which all `n` threads, fewer than 2^64, have begun their call number
-- `k + 1` and some thread has not returned from it, there is a thread that has not returned from
-- it and whose next access is not a failing test of a waiting loop.
pub no_deadlock :
    {n k : ℕ} {s : System}
    → n < 2 ^ 64
    → Reach n s
    → ((j : ℕ) → j < n → k < begun (s.threads j))
    → (i : ℕ) → i < n
    → (s.threads i).returned ≤ k
    → (j : ℕ) × (j < n) × ((s.threads j).returned ≤ k) × (blocked s.bar (s.threads j).pc ≡ false)
no_deadlock {n} {k} {s} small r all i lt late =
    let (m, inv) = Reach-Inv (omega arith) small r in
    let (j, lj, e) = total_gap (crossed m) n s.threads inv.short in
    let least : arrived (s.threads j) ≤ m = ground arith in
    elim (dec_lt k (s.threads j).returned) [
      | no here ↦ (j, lj, omega arith, unblocked inv j lj least)
      | yes gone ↦ (i, lt, late, unblocked inv i lt (ground (arith, inv.near i lt, all i lt)))
    ]
