-- ===== src/Random.antt =====
-- include/ccbench.h: `xorshf96`, `clrand` and `pow2roundup`. `unsigned long` has 64 bits; the seeds
-- that `seed_rand` takes from the cycle counter are a parameter wherever they are used.
pub mod Bounds
use Prim.Native.Nat.{bit_and, bit_or, bit_xor}
use altered_ccbench_fork.Common.{ℕ, ◌+◌, ◌-◌, ◌*◌, ◌/◌, ◌%◌, ◌^◌, if◌then◌else◌, ◌==◌}

-- `seeds[0]`, `seeds[1]` and `seeds[2]`.
pub record Seeds : Type 0 where
  pub x : ℕ
  pub y : ℕ
  pub z : ℕ

unfoldable pub shl64 : ℕ → ℕ → ℕ
shl64 x k = x * 2 ^ k % 2 ^ 64

-- `xorshf96`: the three shifted copies of `*x`, and the rotation of the three words. The value
-- that it returns is the new `*z`.
unfoldable pub xorshf96 : Seeds → Seeds
unfolding shl64
xorshf96 s =
    let x1 = bit_xor s.x (shl64 s.x 16) in
    let x2 = bit_xor x1 (x1 / 2 ^ 5) in
    let t = bit_xor x2 (shl64 x2 1) in record { x = s.y; y = s.z; z = bit_xor (bit_xor t s.y) s.z }

-- `clrand()` stored into a uint32_t: the mask `test_stride - 1` is a uint32_t.
unfoldable pub clrand_mask : ℕ → ℕ → ℕ
clrand_mask test_stride z = bit_and z ((test_stride + 2 ^ 32 - 1) % 2 ^ 32)

-- `x |= x >> k`
unfoldable pub smear : ℕ → ℕ → ℕ
smear x k = bit_or x (x / 2 ^ k)

-- `pow2roundup`, in a uint32_t.
unfoldable pub pow2roundup : ℕ → ℕ
pow2roundup x =
    if x == 0 then 1 else (smear (smear (smear (smear (smear (x - 1) 1) 2) 4) 8) 16 + 1) % 2 ^ 32
