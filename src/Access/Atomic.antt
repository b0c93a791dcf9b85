-- ===== src/Access/Atomic.antt =====
-- `cas`, `cas_no_pf`, `cas_0_eventually`, `fai`, `tas` and `swap`, with the atomic operations of
-- include/atomic_ops.h for x86.
use Prim.Native.Nat.{bit_and}
use altered_ccbench_fork.Common.{
  ℕ, zero, suc, ◌+◌, ◌-◌, ◌%◌, Bool, true, false, if◌then◌else◌, ltb, ◌==◌,
}
use altered_ccbench_fork.Machine.{
  Config, M, ◌>>=◌, ◌>>◌, return, load, store, pfdi, pfdo, clrand, fence, mfence, u32, Local, Lines,
  ok, unfinished,
}

-- `do { cln = clrand(); body } while (cln > 0)`: the value is that of the last round.
unfoldable pub eventually : Config → {A : Type 0} → ℕ → (ℕ → M A) → M A
eventually c zero body l w = unfinished
eventually c (suc fuel) body l w =
    (clrand c >>= λ cln. body cln >>= λ a.
    λ l' w'. elim (ltb 0 cln) [ true ↦ eventually c fuel body l' w' | false ↦ ok a l' w' ])
      l w

-- The value of a C comparison.
abbrev pub truth : Bool → ℕ
truth true = 1
truth false = 0

module _ (c : Config) where
  -- `CAS_U32`, `FAI_U32`, `TAS_U8` on the low byte, `SWAP_U32`: each returns the old value.
  unfoldable pub cas_u32 : ℕ → ℕ → ℕ → M ℕ
  cas_u32 i o o' = do old ← load c i; if old == o then (store c i o' >> return old) else return old

  unfoldable pub fai_u32 : ℕ → M ℕ
  fai_u32 i = do old ← load c i; store c i (u32 (old + 1)); return old

  unfoldable pub tas_u8 : ℕ → M ℕ
  tas_u8 i = do old ← load c i; store c i (old - old % 256 + 0xff); return (old % 256)

  unfoldable pub swap_u32 : ℕ → ℕ → M ℕ
  swap_u32 i v = do old ← load c i; store c i v; return old

  -- `uint8_t o = reps & 0x1` and `uint8_t no = !o`.
  unfoldable pub expected : ℕ → ℕ
  expected reps = bit_and reps 1

  unfoldable pub replacement : ℕ → ℕ
  unfolding expected
  replacement reps = if expected reps == 0 then 1 else 0

  unfoldable pub cas : ℕ → ℕ → M ℕ
  unfolding cas_u32
  cas cl reps = do
    pfdi c 0
    r ← cas_u32 cl (expected reps) (replacement reps)
    pfdo c 0 reps
    return (truth (r == expected reps))

  unfoldable pub cas_no_pf : ℕ → ℕ → M ℕ
  unfolding cas_u32
  cas_no_pf cl reps = do
    r ← cas_u32 cl (expected reps) (replacement reps)
    return (truth (r == expected reps))

  unfoldable pub cas_0_eventually : ℕ → ℕ → M ℕ
  cas_0_eventually cl reps = do
    r ← eventually c c.fuel (λ cln. do
      pfdi c 0
      r ← cas_u32 (cl + cln) (expected reps) (replacement reps)
      pfdo c 0 reps
      return r)
    return (truth (r == expected reps))

  unfoldable pub fai : ℕ → ℕ → M ℕ
  fai cl reps =
      eventually c c.fuel (λ cln. do pfdi c 0; t ← fai_u32 (cl + cln); pfdo c 0 reps; return t)

  unfoldable pub tas : ℕ → ℕ → M ℕ
  tas cl reps = do
    r ← eventually c c.fuel (λ cln. do pfdi c 0; r ← tas_u8 (cl + cln); pfdo c 0 reps; return r)
    return (if r == 255 then 0 else 1)

  unfoldable pub swap : ℕ → ℕ → M ℕ
  swap cl reps = do
    res ← eventually c c.fuel (λ cln. do
      pfdi c 0
      res ← (λ (l : Local) (w : Lines). swap_u32 (cl + cln) l.id l w)
      pfdo c 0 reps
      return res)
    fence mfence
    return res
