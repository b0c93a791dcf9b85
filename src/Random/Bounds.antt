-- ===== src/Random/Bounds.antt =====
-- The range of `clrand`, and what `pow2roundup` rounds to.
use Prim.Native.Nat.{bit_or}
use native.Mathlib.Nat.{
  pow-suc, one-le-pow, pow-le-pow_right, le-div_iff_mul-le, div-lt_iff_lt-mul, div-add-mod', mod-lt,
}
use altered_ccbench_fork.Common.{
  ℕ, zero, suc, ◌+◌, ◌-◌, ◌*◌, ◌/◌, ◌%◌, ◌^◌, ◌≤◌, ◌<◌, ◌≡◌, arith, bit_and-le, bit_or_bounds,
  bit_or_high, ap, dec_lt, refl, ◌∙◌, sym,
}
use altered_ccbench_fork.Random.{clrand_mask, pow2roundup, smear}

-- For a stride from 1 to 2 ^ 32 - 1 a random line index lies below the stride, whatever the
-- generator returns.
pub clrand_mask-lt :
    (test_stride z : ℕ)
    → 1 ≤ test_stride
    → test_stride < 2 ^ 32
    → clrand_mask test_stride z < test_stride
unfolding clrand_mask
clrand_mask-lt t z pos small = omega (arith, bit_and-le z ((t + 2 ^ 32 - 1) % 2 ^ 32))

pow-add : (a b : ℕ) → 2 ^ (a + b) ≡ 2 ^ a * 2 ^ b
pow-add zero b = let e : 0 + b ≡ b = omega arith in rw e (omega arith)
pow-add (suc a) b =
    let e : suc a + b ≡ suc (a + b) = omega arith in
    rw e (omega (arith, pow-suc 2 (a + b), pow-add a b, ap (λ (t : ℕ). t * 2 ^ b) (pow-suc 2 a)))

-- The top `m` of `k` bits are ones.
abbrev Ones : ℕ → ℕ → ℕ → Type 0
Ones k m v = (v < 2 ^ k) × (2 ^ k ≤ v + 2 ^ (k - m))

spread : (d q r v : ℕ) → (d + q) * r ≤ v + (d + q) → d + q ≤ q * r → d * r ≤ v
spread d q r v top fits = omega arith

gap : (p q r v : ℕ) → p * r ≤ v + p → p ≤ q * r → (p - q) * r ≤ v
gap p q r v top fits = elim (dec_lt p q) [
  | yes less ↦ let e : p - q ≡ 0 = omega arith in rw e (omega arith)
  | no more ↦ let e : p - q + q ≡ p = omega arith in spread (p - q) q r v (rw e top) (rw e fits)
]

-- One round, in terms of the powers `p = 2 ^ j` and `r = 2 ^ m` with `p * r = 2 ^ k`.
smear_powers :
    (j m q v : ℕ)
    → v < 2 ^ j * 2 ^ m
    → 2 ^ j * 2 ^ m ≤ v + 2 ^ j
    → 2 ^ j ≤ q * 2 ^ m
    → (smear v m < 2 ^ j * 2 ^ m) × (2 ^ j * 2 ^ m ≤ smear v m + q)
unfolding smear
smear_powers j m q v top ones fits =
    let p = 2 ^ j in
    let r = 2 ^ m in
    let p_pos : 1 ≤ p = one-le-pow j 2 (omega arith) in
    let r_pos : 1 ≤ r = one-le-pow m 2 (omega arith) in
    let split : v / p * p + v % p ≡ v = div-add-mod' v p in
    let low : v % p < p = mod-lt v p_pos in
    let y_top : v / r < p = (div-lt_iff_lt-mul r_pos).1 top in
    let rest : (p - q) * r ≤ v = gap p q r v ones fits in
    let y_ones : p - q ≤ v / r = (le-div_iff_mul-le r_pos).1 rest in
    let h_top : v / p < r = (div-lt_iff_lt-mul p_pos).1 (omega arith) in
    let h_ones : r - 1 ≤ v / p = (le-div_iff_mul-le p_pos).1 (grind arith) in
    let over : (v / p + 1) * p ≤ r * p = grind arith in
    let under : r * p ≤ (v / p + 1) * p = grind arith in
    let parts : bit_or v (v / r) ≡ v / p * p + bit_or (v % p) (v / r) =
      ap (λ (t : ℕ). bit_or t (v / r)) (sym split)
      ∙ bit_or_high j (v / p) (v % p) (v / r) low y_top in
    omega (arith, parts, bit_or_bounds j (v % p) (v / r) low y_top)

smear-Ones : (k m v : ℕ) → Ones k m v → Ones k (m + m) (smear v m)
smear-Ones k m v (top, ones) = elim (dec_lt k m) [
  | no fits ↦
      let e : k ≡ k - m + m = omega arith in
      let split : 2 ^ k ≡ 2 ^ (k - m) * 2 ^ m = ap (λ (t : ℕ). 2 ^ t) e ∙ pow-add (k - m) m in
      let wide : 2 ^ (k - m) ≤ 2 ^ (k - (m + m)) * 2 ^ m =
        rw (← pow-add (k - (m + m)) m) (pow-le-pow_right (omega arith) (omega arith)) in
      let (below, above) =
        smear_powers (k - m) m (2 ^ (k - (m + m))) v (omega (arith, split)) (omega (arith, split))
          wide in
      (omega (arith, split), omega (arith, split))
  | yes done ↦ full (omega arith) (omega arith)
]
  where
    full : k - m ≡ 0 → k - (m + m) ≡ 0 → Ones k (m + m) (smear v m)
    full e e' =
        let shifted : v / 2 ^ m ≤ v = omega arith in
        let one : 2 ^ k ≤ v + 1 = rw e at ones in
        let bounds = bit_or_bounds k v (v / 2 ^ m) top (omega arith) in
        unfold smear in rw e' (omega arith)

-- The number of binary digits.
width : (k v : ℕ) → v < 2 ^ k → 1 ≤ v → (w : ℕ) × (w < k) × (2 ^ w ≤ v) × (v < 2 ^ suc w)
width zero v top pos = absurd (omega arith)
width (suc k) v top pos = elim (dec_lt v (2 ^ k)) [
  | yes less ↦ let (w, lt, low, high) = width k v less pos in (w, omega arith, low, high)
  | no more ↦ (k, omega arith, omega arith, top)
]

smear_all :
    (w v : ℕ)
    → w < 32
    → 2 ^ w ≤ v
    → v < 2 ^ suc w
    → smear (smear (smear (smear (smear v 1) 2) 4) 8) 16 + 1 ≡ 2 ^ suc w
smear_all w v small low high =
    let start : Ones (suc w) 1 v =
      let e : suc w - 1 ≡ w = omega arith in (high, rw e (omega (arith, pow-suc 2 w))) in
    let last = smear-Ones (suc w) 16 _ (
      smear-Ones (suc w) 8 _
        (smear-Ones (suc w) 4 _ (smear-Ones (suc w) 2 _ (smear-Ones (suc w) 1 v start)))) in
    let e : suc w - 32 ≡ 0 = omega arith in
    let ones = rw e at (last.1) in omega (arith, last.0, ones)

pow2roundup_at : (w x : ℕ) → w < 31 → 2 ^ w < x → x ≤ 2 ^ suc w → pow2roundup x ≡ 2 ^ suc w
unfolding pow2roundup
pow2roundup_at w x small low high =
    let e = smear_all w (x - 1) (omega arith) (omega arith) (omega arith) in
    let bound : 2 ^ suc w ≤ 2 ^ 31 =
      pow-le-pow_right {n = 2} (omega arith) {i = suc w} {j = 31} (omega arith) in
    ground (arith, e)

-- For 1 ≤ x ≤ 2 ^ 31 the result of `pow2roundup` is the least power of two that is at least `x`: `x ≤ 2 ^ k < 2 x`.
pub pow2roundup_lem :
    (x : ℕ) → 1 ≤ x → x ≤ 2 ^ 31 → (k : ℕ) × (pow2roundup x ≡ 2 ^ k) × (x ≤ 2 ^ k) × (2 ^ k < 2 * x)
pow2roundup_lem zero pos small = absurd (omega arith)
pow2roundup_lem (suc zero) pos small =
    let e : pow2roundup 1 ≡ 1 = unfold pow2roundup smear in refl in (0, e, omega arith, omega arith)
pow2roundup_lem (suc (suc y)) pos small =
    let (w, lt, low, high) = width 31 (suc y) (omega arith) (omega arith) in
    (
      suc w,
      pow2roundup_at w (suc (suc y)) lt (omega arith) (omega arith),
      omega arith,
      omega (arith, pow-suc 2 w),
    )

-- From 2 ^ 31 + 1 to 2 ^ 32 - 1 the increment of `pow2roundup` wraps, and the result is 0.
pub pow2roundup_wraps : (x : ℕ) → 2 ^ 31 < x → x < 2 ^ 32 → pow2roundup x ≡ 0
unfolding pow2roundup
pow2roundup_wraps x low high =
    let e = smear_all 31 (x - 1) (omega arith) (omega arith) (omega arith) in ground (arith, e)
