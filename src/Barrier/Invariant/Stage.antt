-- ===== src/Barrier/Invariant/Stage.antt =====
-- Stages of a thread, the counter of a stage, and the invariant over all threads.
use altered_ccbench_fork.Common.{
  ℕ, ◌+◌, ◌*◌, ◌%◌, ◌^◌, ◌≤◌, ◌<◌, ◌≡◌, if◌then◌else◌, ltb, ◌==◌, total,
}
use altered_ccbench_fork.Barrier.Wait.{
  Barrier, Pc, Thread, outside, reset2, count1, wait1, reset3, count2, wait2, reset1, count3, wait3,
}
use altered_ccbench_fork.Barrier.System.{System}

abbrev pub crossing : Pc → ℕ
crossing outside = 0
crossing reset2 = 0
crossing count1 = 0
crossing wait1 = 0
crossing reset3 = 1
crossing count2 = 1
crossing wait2 = 1
crossing reset1 = 2
crossing count3 = 2
crossing wait3 = 2

abbrev pub waiting : Pc → ℕ
waiting wait1 = 1
waiting wait2 = 1
waiting wait3 = 1
waiting _ = 0

abbrev pub cleared : Pc → ℕ
cleared outside = 0
cleared reset2 = 0
cleared reset3 = 0
cleared reset1 = 0
cleared _ = 1

-- Loops that the thread has left, and increments that it has made, since the start.
abbrev pub passed : Thread → ℕ
passed t = 3 * t.returned + crossing t.pc

abbrev pub arrived : Thread → ℕ
arrived t = passed t + waiting t.pc

abbrev pub counter : Barrier → ℕ → ℕ
counter b m =
    if m % 3 == 0 then b.num_crossing1 else if m % 3 == 1 then b.num_crossing2 else b.num_crossing3

abbrev pub crossed : ℕ → Thread → ℕ
crossed m t = if ltb m (arrived t) then 1 else 0

-- Every thread is in stage `m` or waits to leave the stage before it; the counter of stage `m` is
-- the number of threads that have arrived there.
pub record Inv (n : ℕ) (s : System) (m : ℕ) : Type 0 where
  pub parts : s.bar.num_participants ≡ n
  pub small : n < 2 ^ 64
  pub colors : (i : ℕ) → s.bar.color i ≡ 1
  pub near :
      (i : ℕ)
      → i < n
      → (passed (s.threads i) ≤ m) × (m ≤ arrived (s.threads i)) × (arrived (s.threads i) ≤ m + 1)
  pub counted : counter s.bar m ≡ total (crossed m) n s.threads
  pub short : total (crossed m) n s.threads < n
  pub ready :
      (i : ℕ)
      → i < n
      → passed (s.threads i) ≡ m
      → 1 ≤ cleared (s.threads i).pc
      → counter s.bar (m + 1) ≡ 0
  pub full : 1 ≤ m → counter s.bar (m + 2) ≡ n
