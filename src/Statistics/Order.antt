-- ===== src/Statistics/Order.antt =====
-- The k-th element of a sorted list has at most k elements below it, and more than k up to it.
use altered_ccbench_fork.Common.{
  ℕ, zero, suc, ◌+◌, ◌<◌, ◌≤◌, ◌≡◌, refl, subst, ap, ◌∙◌, arith, Bool, List, [], ◌∷◌, some,
  if◌then◌else◌, ltb, leb, length, get_elem?, All,
}
use altered_ccbench_fork.Statistics.Median.{ticks_compare, insert, qsort}

abbrev pub count : (ℕ → Bool) → List ℕ → ℕ
count p [] = 0
count p (v ∷ vs) = (if p v then 1 else 0) + count p vs

abbrev Sorted : List ℕ → Type 0
Sorted [] = Unit
Sorted (v ∷ vs) = All (λ w. v ≤ w) vs × Sorted vs

count-insert :
    (p : ℕ → Bool) (x : ℕ) (vs : List ℕ)
    → count p (insert ticks_compare x vs) ≡ (if p x then 1 else 0) + count p vs
unfolding ticks_compare
count-insert p x [] = refl
count-insert p x (y ∷ ys) = ground (arith, count-insert p x ys)

pub count-qsort : (p : ℕ → Bool) (vs : List ℕ) → count p (qsort ticks_compare vs) ≡ count p vs
count-qsort p [] = refl
count-qsort p (v ∷ vs) = omega (arith, count-insert p v (qsort ticks_compare vs), count-qsort p vs)

All-insert :
    (P : ℕ → Type 0) (x : ℕ) (vs : List ℕ) → P x → All P vs → All P (insert ticks_compare x vs)
unfolding ticks_compare
All-insert P x [] h all = (h, tt)
All-insert P x (y ∷ ys) h (h', all) = ground (arith, All-insert P x ys h all)

pub All-qsort : (P : ℕ → Type 0) (vs : List ℕ) → All P vs → All P (qsort ticks_compare vs)
All-qsort P [] all = tt
All-qsort P (v ∷ vs) (h, all) = All-insert P v (qsort ticks_compare vs) h (All-qsort P vs all)

All-weaken : (m n : ℕ) (vs : List ℕ) → m ≤ n → All (λ w. n ≤ w) vs → All (λ w. m ≤ w) vs
All-weaken m n [] le all = tt
All-weaken m n (v ∷ vs) le (le', all) = (omega (arith, le, le'), All-weaken m n vs le all)

Sorted-insert : (x : ℕ) (vs : List ℕ) → Sorted vs → Sorted (insert ticks_compare x vs)
unfolding ticks_compare
Sorted-insert x [] h = (tt, tt)
Sorted-insert x (y ∷ ys) (all, h) =
    ground (arith, All-insert (λ w. y ≤ w) x ys, All-weaken x y ys, Sorted-insert x ys h, all)

Sorted-qsort : (vs : List ℕ) → Sorted (qsort ticks_compare vs)
Sorted-qsort [] = tt
Sorted-qsort (v ∷ vs) = Sorted-insert v (qsort ticks_compare vs) (Sorted-qsort vs)

pub length-insert : (x : ℕ) (vs : List ℕ) → length (insert ticks_compare x vs) ≡ suc (length vs)
unfolding ticks_compare
length-insert x [] = refl
length-insert x (y ∷ ys) = ground (arith, length-insert x ys)

pub length-qsort : (vs : List ℕ) → length (qsort ticks_compare vs) ≡ length vs
length-qsort [] = refl
length-qsort (v ∷ vs) = length-insert v (qsort ticks_compare vs) ∙ ap suc (length-qsort vs)

pub All-get : (P : ℕ → Type 0) (vs : List ℕ) (k x : ℕ) → All P vs → get_elem? vs k ≡ some x → P x
All-get P [] k x all e = absurd (cc)
All-get P (v ∷ vs) zero x (h, all) e = let e' : v ≡ x = cc in subst P e' h
All-get P (v ∷ vs) (suc k) x (h, all) e = All-get P vs k x all e

pub get-some : (vs : List ℕ) (k : ℕ) → k < length vs → (x : ℕ) × (get_elem? vs k ≡ some x)
get-some [] k lt = absurd (omega arith)
get-some (v ∷ vs) zero lt = (v, refl)
get-some (v ∷ vs) (suc k) lt = get-some vs k (omega arith)

none_below : (x : ℕ) (vs : List ℕ) → All (λ w. x ≤ w) vs → count (λ w. ltb w x) vs ≡ 0
none_below x [] all = refl
none_below x (v ∷ vs) (le, all) = ground (arith, le, none_below x vs all)

-- `x` is the k-th in the order of the values, counted from 0.
abbrev pub Rank : List ℕ → ℕ → ℕ → Type 0
Rank vs k x = (count (λ w. ltb w x) vs ≤ k) × (k < count (λ w. leb w x) vs)

Sorted-Rank : (vs : List ℕ) (k x : ℕ) → Sorted vs → get_elem? vs k ≡ some x → Rank vs k x
Sorted-Rank [] k x h e = absurd (cc)
Sorted-Rank (v ∷ vs) zero x (all, h) e =
    let e' : v ≡ x = cc in
    let nothing = none_below v vs all in subst (Rank (v ∷ vs) 0) e' (ground (arith, nothing))
Sorted-Rank (v ∷ vs) (suc k) x (all, h) e =
    let (below, upto) = Sorted-Rank vs k x h e in
    let le = All-get (λ w. v ≤ w) vs k x all e in (ground (arith, below), ground (arith, upto, le))

pub qsort-Rank :
    (vs : List ℕ) (k x : ℕ) → get_elem? (qsort ticks_compare vs) k ≡ some x → Rank vs k x
qsort-Rank vs k x e =
    let (below, upto) = Sorted-Rank (qsort ticks_compare vs) k x (Sorted-qsort vs) e in
    (
      omega (arith, below, count-qsort (λ w. ltb w x) vs),
      omega (arith, upto, count-qsort (λ w. leb w x) vs),
    )
