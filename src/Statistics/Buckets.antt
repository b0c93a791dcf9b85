-- ===== src/Statistics/Buckets.antt =====
-- The loops over all classes at once compute what one would compute class by class.
use altered_ccbench_fork.Common.{
  ℕ, suc, ◌+◌, ◌*◌, ◌^◌, ◌<◌, ◌≤◌, ◌≡◌, ◌∙◌, ap, refl, sym, subst, arith, Bool, true, false, List,
  [], ◌∷◌, map, if◌then◌else◌, length,
}
use altered_ccbench_fork.Machine.{u32, u64}
use altered_ccbench_fork.Statistics.Double.{Double}
use altered_ccbench_fork.Statistics.Deviation.{
  Class, same_class, limited, limit_vals, deviation, class_of, zero_double, Sums, initial_sums,
  add_val, add_vals, add_deviations, summarised, get_abs_deviation, AbsDeviation,
}

abbrev pub sum : List ℕ → ℕ
sum [] = 0
sum (v ∷ vs) = v + sum vs

pub limited-le : (v : ℕ) → limited v ≤ 1500
unfolding limited
limited-le v = ground arith

sum-limited-le : (vs : List ℕ) → sum (map limited vs) ≤ length vs * 1500
sum-limited-le [] = omega arith
sum-limited-le (v ∷ vs) = omega (arith, limited-le v, sum-limited-le vs)

pub map-length : (vs : List ℕ) → length (map limited vs) ≡ length vs
map-length [] = refl
map-length (v ∷ vs) = ap suc (map-length vs)

limit_vals_lem :
    (vs : List ℕ) (acc : ℕ)
    → acc + length vs * 1500 < 2 ^ 64
    → limit_vals vs acc ≡ (map limited vs, acc + sum (map limited vs))
unfolding limit_vals
limit_vals_lem [] acc small = ap (λ n. ([], n)) (omega arith)
limit_vals_lem (v ∷ vs) acc small =
    let few = limited-le v in
    let e : u64 (acc + limited v) ≡ acc + limited v = ground (arith, few, small) in
    let e' : acc + limited v + sum (map limited vs) ≡ acc + (limited v + sum (map limited vs)) =
      omega arith in
    rw (e, limit_vals_lem vs (acc + limited v) (omega (arith, few, small)))
      (ap (λ n. (map limited (v ∷ vs), n)) e')

count-bound :
    (b : Bool) (m n : ℕ) → m + suc n < 2 ^ 32 → (if b then u32 (m + 1) else m) + n < 2 ^ 32
count-bound b m n small = ground arith

count-step :
    (b : Bool) (m v n : ℕ) (l : List ℕ)
    → m + suc n < 2 ^ 32
    → (if b then u32 (m + 1) else m) + length l ≡ m + length (if b then v ∷ l else l)
count-step b m v n l small = ground arith

sum-bound :
    (b : Bool) (m v n : ℕ) → m + (v + n) < 2 ^ 64 → (if b then u64 (m + v) else m) + n < 2 ^ 64
sum-bound b m v n small = ground arith

sum-step :
    (b : Bool) (m v n : ℕ) (l : List ℕ)
    → m + (v + n) < 2 ^ 64
    → (if b then u64 (m + v) else m) + sum l ≡ m + sum (if b then v ∷ l else l)
sum-step b m v n l small = ground arith

same_class-eq : (c c' : Class) → same_class c c' ≡ true → c ≡ c'
same_class-eq c c' h = ground arith

module _ {ℓ} {D : Type ℓ} ⦃d : Double D⦄ where
  -- The values of a class.
  abbrev pub selected : D → Class → List ℕ → List ℕ
  selected avg c [] = []
  selected avg c (v ∷ vs) =
      let others = selected avg c vs in
      if same_class c (class_of avg (deviation avg v)) then v ∷ others else others

  abbrev pub total_deviation : D → D → List ℕ → D
  total_deviation avg acc [] = acc
  total_deviation avg acc (v ∷ vs) = total_deviation avg (d.plus acc (deviation avg v)) vs

  abbrev pub total_square : D → D → List ℕ → D
  total_square avg acc [] = acc
  total_square avg acc (v ∷ vs) =
      total_square avg (d.plus acc (d.times (deviation avg v) (deviation avg v))) vs

  selected-length : (avg : D) (c : Class) (vs : List ℕ) → length (selected avg c vs) ≤ length vs
  selected-length avg c [] = omega arith
  selected-length avg c (v ∷ vs) = ground (arith, selected-length avg c vs)

  selected-sum : (avg : D) (c : Class) (vs : List ℕ) → sum (selected avg c vs) ≤ sum vs
  selected-sum avg c [] = omega arith
  selected-sum avg c (v ∷ vs) = ground (arith, selected-sum avg c vs)

  add_vals-num_dev :
      (avg : D) (i : ℕ) (vs : List ℕ) (s : Sums D) (c : Class)
      → s.num_dev c + length vs < 2 ^ 32
      → (add_vals avg i vs s).num_dev c ≡ s.num_dev c + length (selected avg c vs)
  unfolding add_vals add_val
  add_vals-num_dev avg i [] s c small = omega arith
  add_vals-num_dev avg i (v ∷ vs) s c small =
      let b = same_class c (class_of avg (deviation avg v)) in
      add_vals-num_dev avg (i + 1) vs (add_val avg i v s) c
        (count-bound b (s.num_dev c) (length vs) small)
      ∙ count-step b (s.num_dev c) v (length vs) (selected avg c vs) small

  add_vals-sum_vals :
      (avg : D) (i : ℕ) (vs : List ℕ) (s : Sums D) (c : Class)
      → s.sum_vals c + sum vs < 2 ^ 64
      → (add_vals avg i vs s).sum_vals c ≡ s.sum_vals c + sum (selected avg c vs)
  unfolding add_vals add_val
  add_vals-sum_vals avg i [] s c small = omega arith
  add_vals-sum_vals avg i (v ∷ vs) s c small =
      let b = same_class c (class_of avg (deviation avg v)) in
      add_vals-sum_vals avg (i + 1) vs (add_val avg i v s) c
        (sum-bound b (s.sum_vals c) v (sum vs) small)
      ∙ sum-step b (s.sum_vals c) v (sum vs) (selected avg c vs) small

  deviation-step :
      (b : Bool) (avg_of : Class → D) (c own : Class) (v : ℕ) (acc : D) (l : List ℕ)
      → (b ≡ true → c ≡ own)
      → total_deviation (avg_of c) (if b then d.plus acc (deviation (avg_of own) v) else acc) l
        ≡ total_deviation (avg_of c) acc (if b then v ∷ l else l)
  deviation-step true avg_of c own v acc l h =
      ap (λ k. total_deviation (avg_of c) (d.plus acc (deviation (avg_of k) v)) l) (sym (h refl))
  deviation-step false avg_of c own v acc l h = refl

  square-step :
      (b : Bool) (avg_of : Class → D) (c own : Class) (v : ℕ) (acc : D) (l : List ℕ)
      → (b ≡ true → c ≡ own)
      → let ad = deviation (avg_of own) v in
        total_square (avg_of c) (if b then d.plus acc (d.times ad ad) else acc) l
        ≡ total_square (avg_of c) acc (if b then v ∷ l else l)
  square-step true avg_of c own v acc l h =
      let square = λ (a : D). d.times (deviation a v) (deviation a v) in
      ap (λ k. total_square (avg_of c) (d.plus acc (square (avg_of k))) l) (sym (h refl))
  square-step false avg_of c own v acc l h = refl

  add_deviations_lem :
      (avg : D) (avg_of : Class → D) (vs : List ℕ) (sum_adev sum_stdev : Class → D) (c : Class)
      → let (a, s) = add_deviations avg avg_of vs sum_adev sum_stdev in
        (a c ≡ total_deviation (avg_of c) (sum_adev c) (selected avg c vs))
        × (s c ≡ total_square (avg_of c) (sum_stdev c) (selected avg c vs))
  unfolding add_deviations
  add_deviations_lem avg avg_of [] sum_adev sum_stdev c = (refl, refl)
  add_deviations_lem avg avg_of (v ∷ vs) sum_adev sum_stdev c =
      let own = class_of avg (deviation avg v) in
      let ad = deviation (avg_of own) v in
      let (a, sq) =
        add_deviations_lem avg avg_of vs
          (λ k. if same_class k own then d.plus (sum_adev k) ad else sum_adev k)
          (λ k. if same_class k own then d.plus (sum_stdev k) (d.times ad ad) else sum_stdev k) c in
      let same = same_class-eq c own in
      (
        a ∙ deviation-step (same_class c own) avg_of c own v (sum_adev c) (selected avg c vs) same,
        sq ∙ square-step (same_class c own) avg_of c own v (sum_stdev c) (selected avg c vs) same,
      )

  -- What the result says of a class, when the values are `vals`.
  pub record ClassOf (vals : List ℕ) (c : Class) (r : AbsDeviation D) : Type ℓ where
    pub avg : r.avg ≡ d.over (d.of_ticks (sum vals)) (d.of_ticks (length vals))
    pub num_dev_of : r.num_dev_of c ≡ length (selected r.avg c vals)
    pub avg_of :
        r.avg_of c
        ≡ d.over
            (d.of_ticks (sum (selected r.avg c vals)))
            (d.of_ticks (length (selected r.avg c vals)))
    pub abs_dev_of :
        r.abs_dev_of c
        ≡ d.over
            (total_deviation (r.avg_of c) zero_double (selected r.avg c vals))
            (d.of_ticks (length (selected r.avg c vals)))
    pub std_dev_of :
        r.std_dev_of c
        ≡ d.sqrt (
            d.over
              (total_square (r.avg_of c) zero_double (selected r.avg c vals))
              (d.of_ticks (length (selected r.avg c vals))))

  summarised-ClassOf :
      (vals : List ℕ) (c : Class)
      → length vals < 2 ^ 32
      → sum vals < 2 ^ 64
      → ClassOf vals c (summarised vals (length vals) (sum vals))
  unfolding summarised
  summarised-ClassOf vals c few small =
      let avg = d.over (d.of_ticks (sum vals)) (d.of_ticks (length vals)) in
      let sums = add_vals avg 0 vals initial_sums in
      let own = selected avg c vals in
      let avg_of : Class → D =
        λ k. d.over (d.of_ticks (sums.sum_vals k)) (d.of_ticks (sums.num_dev k)) in
      let n : sums.num_dev c ≡ length own =
        add_vals-num_dev avg 0 vals initial_sums c (omega (arith, few)) ∙ omega arith in
      let t : sums.sum_vals c ≡ sum own =
        add_vals-sum_vals avg 0 vals initial_sums c (omega (arith, small)) ∙ omega arith in
      let (a, q) = add_deviations_lem avg avg_of vals (λ k. zero_double) (λ k. zero_double) c in
      let over_count : (x y : D)
          → x ≡ y
          → d.over x (d.of_ticks (sums.num_dev c)) ≡ d.over y (d.of_ticks (length own)) =
        λ x y e.
          ap (λ x. d.over x (d.of_ticks (sums.num_dev c))) e
          ∙ ap (λ k. d.over y (d.of_ticks k)) n in
      record {
        avg = refl;
        num_dev_of = n;
        avg_of = over_count _ _ (ap d.of_ticks t);
        abs_dev_of = over_count _ _ a;
        std_dev_of = ap d.sqrt (over_count _ _ q);
      }

  pub get_abs_deviation-ClassOf :
      (vals : List ℕ) (c : Class)
      → length vals < 2 ^ 32
      → let (r, left) = get_abs_deviation {D = D} vals in
        (left ≡ map limited vals) × ClassOf left c r
  unfolding get_abs_deviation
  get_abs_deviation-ClassOf vals c few =
      let bound = sum-limited-le vals in
      let same = map-length vals in
      let e : limit_vals vals 0 ≡ (map limited vals, sum (map limited vals)) =
        limit_vals_lem vals 0 (omega (arith, few))
        ∙ ap (λ n. (map limited vals, n)) (omega arith) in
      let limits =
        summarised-ClassOf (map limited vals) c (omega (arith, few, same))
          (omega (arith, few, bound)) in
      (
        ap (λ p. p.0) e,
        subst (λ p. ClassOf p.0 c (summarised p.0 (length vals) p.1)) (sym e)
            (subst
              (λ n.
                ClassOf (map limited vals) c
                  (summarised (map limited vals) n (sum (map limited vals))))
              same limits),
      )
