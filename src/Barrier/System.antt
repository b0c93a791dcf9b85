-- ===== src/Barrier/System.antt =====
-- `n` threads that call `barrier_wait` on one barrier over and over, interleaved in any order.
use altered_ccbench_fork.Common.{ℕ, ◌<◌, update}
use altered_ccbench_fork.Barrier.Wait.{Barrier, Thread, outside, at, step, color_all}

pub record System : Type 0 where
  pub bar : Barrier
  pub threads : ℕ → Thread

-- Thread `i` makes its next shared access.
abbrev pub advance : ℕ → System → System
advance i s =
    let (b, t) = step i s.bar (s.threads i).pc (s.threads i).returned in
    record { bar = b; threads = update s.threads i t }

-- Before the first call, over a barrier as `barrier_init` leaves it.
abbrev pub init : ℕ → System
init n = record {
  bar = record {
    num_participants = n;
    num_crossing1 = 0;
    num_crossing2 = 0;
    num_crossing3 = 0;
    color = color_all;
  };
  threads = λ i. at outside 0;
}

pub data Reach (n : ℕ) : System → Type 0 where
  start : Reach n (init n)
  later : {s : System} → Reach n s → (i : ℕ) → i < n → Reach n (advance i s)
