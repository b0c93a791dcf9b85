-- ===== src/CommandLine/Valid.antt =====
-- The event and the stride, whatever the options.
use native.Mathlib.Nat.{pow-le-pow_right}
use altered_ccbench_fork.Common.{
  zero, suc, ℕ, ◌^◌, ◌<◌, ◌≤◌, ◌≡◌, ◌⊎◌, inl, inr, refl, arith, Bool, true, false, List, [], ◌∷◌,
  if◌then◌else◌, leb, ◌==◌, Text, Bool-cases,
}
use altered_ccbench_fork.Random.{pow2roundup}
use altered_ccbench_fork.Random.Bounds.{pow2roundup_lem, pow2roundup_wraps}
use altered_ccbench_fork.Libc.{ℤ, pos, negsuc, to_uint32, atoi, strtol}
use altered_ccbench_fork.CommandLine.Result.{Result, ok, exit, fault, ◌>>=◌}
use altered_ccbench_fork.CommandLine.TestOption.{num_events, parse_test_option}
use altered_ccbench_fork.CommandLine.TestNames.{parse_test_option_lem}
use altered_ccbench_fork.CommandLine.Size.{parse_size}
use altered_ccbench_fork.CommandLine.Options.{
  Selection, Settings, defaults, with_cores, set_option, set_options,
}

-- What is not accepted satisfies anything.
abbrev pub Accepts {ℓ} : {A : Type ℓ} → (A → Type 0) → Result A → Type 0
Accepts P (ok a) = P a
Accepts P (exit n m) = Unit
Accepts P fault = Unit

module _ {ℓ κ} {A : Type ℓ} {B : Type κ} (P : B → Type 0) where
  >>=-Accepts :
      (m : Result A) (f : A → Result B)
      → ((a : A) → m ≡ ok a → Accepts P (f a))
      → Accepts P (m >>= f)
  >>=-Accepts (ok a) f h = h a refl
  >>=-Accepts (exit n m) f h = tt
  >>=-Accepts fault f h = tt

>>=-kept {ℓ κ} :
    {A : Type ℓ} {B : Type κ} (P : A → Type 0) (Q : B → Type 0) (m : Result A) (f : A → Result B)
    → Accepts P m
    → ((a : A) → P a → Accepts Q (f a))
    → Accepts Q (m >>= f)
>>=-kept P Q (ok a) f h k = k a h
>>=-kept P Q (exit n m) f h k = tt
>>=-kept P Q fault f h k = tt

if-Accepts {ℓ} :
    {A : Type ℓ} (P : A → Type 0) (b : Bool) (x y : Result A)
    → Accepts P x
    → Accepts P y
    → Accepts P (if b then x else y)
if-Accepts P true x y h k = h
if-Accepts P false x y h k = k

-- A stride is 0 or a power of two in 32 bits.
abbrev pub IsStride : ℕ → Type 0
IsStride n = (n ≡ 0) ⊎ ((k : ℕ) × (k ≤ 31) × (n ≡ 2 ^ k))

pub IsStride-lt : (n : ℕ) → IsStride n → n < 2 ^ 32
IsStride-lt n (inl e) = omega (arith, e)
IsStride-lt n (inr (k, le, e)) =
    let bound : 2 ^ k ≤ 2 ^ 31 = pow-le-pow_right {n = 2} (omega arith) {i = k} {j = 31} le in
    omega (arith, e, bound)

to_uint32-lt : (v : ℤ) → to_uint32 v < 2 ^ 32
unfolding to_uint32
to_uint32-lt (pos n) = omega arith
to_uint32-lt (negsuc n) = omega arith

exponent-le : (k : ℕ) → 2 ^ k < 2 ^ 32 → k ≤ 31
exponent-le k small = elim (Bool-cases (leb k 31)) [
  | inl fits ↦ ground (arith, fits)
  | inr over ↦
      let bound : 2 ^ 32 ≤ 2 ^ k =
        pow-le-pow_right {n = 2} (omega arith) {i = 32} {j = k} (ground (arith, over)) in
      absurd (omega (arith, bound, small))
]

pow2roundup-IsStride : (x : ℕ) → x < 2 ^ 32 → IsStride (pow2roundup x)
pow2roundup-IsStride zero small =
    let e : pow2roundup 0 ≡ 1 = unfold pow2roundup in refl in inr (0, omega arith, e)
pow2roundup-IsStride (suc x) small = elim (Bool-cases (leb (suc x) (2 ^ 31))) [
  | inl low ↦
      let (k, e, least, below) = pow2roundup_lem (suc x) (omega arith) (ground (arith, low)) in
      inr (k, exponent-le k (ground (arith, below, low)), e)
  | inr high ↦ inl (pow2roundup_wraps (suc x) (ground (arith, high)) small)
]

atoi-IsStride : (s : Text) → IsStride (pow2roundup (atoi s))
unfolding atoi
atoi-IsStride s = pow2roundup-IsStride (to_uint32 (strtol s).value) (to_uint32-lt (strtol s).value)

-- What every accepted option leaves true.
pub record IsValid {ℓ} {A : Type ℓ} (s : Settings A) : Type 0 where
  pub event : s.test_test < num_events
  pub stride : IsStride s.test_stride

module _ {ℓ} {A : Type ℓ} where
  pub defaults-IsValid : (a : A) → IsValid (defaults a)
  defaults-IsValid a = record { event = omega arith; stride = inr (11, omega arith, refl) }

  with_cores-IsValid :
      (s : Settings A) (m : Result A) → IsValid s → Accepts IsValid (with_cores s m)
  with_cores-IsValid s m h =
      >>=-Accepts IsValid m _ (λ a e. record { event = h.event; stride = h.stride })

  set_option-IsValid :
      (sel : Selection A) (c : ℕ) (optarg : Text) (s : Settings A)
      → IsValid s
      → Accepts IsValid (set_option sel c optarg s)
  unfolding set_option
  set_option-IsValid sel c optarg s h =
      let next = if-Accepts (λ (t : Settings A). IsValid t) in
      let test =
        >>=-Accepts (λ (t : Settings A). IsValid t) (parse_test_option optarg) _
          (λ e q. record { event = ((parse_test_option_lem optarg e).0 q).0; stride = h.stride }) in
      let size =
        >>=-Accepts (λ (t : Settings A). IsValid t) (parse_size optarg) _
          (λ n q. record { event = h.event; stride = h.stride }) in
      next (c == 0) _ _ h (
        next (c == b'h') _ _ tt (
          next (c == b'c') _ _ (with_cores-IsValid s _ h) (
            next (c == b'r') _ _ (record { event = h.event; stride = h.stride })
              (next (c == b't') _ _ test (
                next (c == b'x') _ _ (with_cores-IsValid s _ h) (
                  next (c == b'o') _ _ (record { event = h.event; stride = h.stride })
                    (next (c == b'f') _ _ (record { event = h.event; stride = h.stride })
                      (next (c == b's') _ _
                        (record { event = h.event; stride = atoi-IsStride optarg })
                        (next (c == b'e') _ _ (record { event = h.event; stride = h.stride })
                          (next (c == b'm') _ _ size (
                            next (c == b'u') _ _ (record { event = h.event; stride = h.stride })
                              (next (c == b'v') _ _ (record { event = h.event; stride = h.stride })
                                (next (c == b'p') _ _
                                  (record { event = h.event; stride = h.stride })
                                  (next (c == b'?') _ _ tt tt))))))))))))))

  -- Whatever options are accepted, from settings that are valid: the event is below NUM_EVENTS, and
  -- the stride is 0 or a power of two below 2 ^ 32.
  pub set_options-IsValid :
      (sel : Selection A) (given : List (ℕ × Text)) (s : Settings A)
      → IsValid s
      → Accepts IsValid (set_options sel given s)
  unfolding set_options
  set_options-IsValid sel [] s h = h
  set_options-IsValid sel ((c, optarg) ∷ given) s h =
      >>=-kept (λ (t : Settings A). IsValid t) (λ (t : Settings A). IsValid t)
        (set_option sel c optarg s) _ (set_option-IsValid sel c optarg s h)
        (λ t h'. set_options-IsValid sel given t h')
