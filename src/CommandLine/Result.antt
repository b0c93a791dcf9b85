-- ===== src/CommandLine/Result.antt =====
-- How the parsing of an option ends.
use altered_ccbench_fork.Common.{if◌then◌else◌, ℕ, ◌≡◌, refl, Bool, true, false}

-- The message printed before `exit`.
pub data Message : Type 0 where
  expects_brackets empty_entry invalid_core no_cores core_count : Message
  unexpected_character : ℕ → Message
  invalid_cores : Message
  out_of_range unknown_test : Message
  help usage other : Message

-- `exit` with its status, or `fault`: an access outside a string.
pub data Result {ℓ} (A : Type ℓ) : Type ℓ where
  ok : A → Result A
  exit : ℕ → Message → Result A
  fault : Result A

infixl 4 ◌>>=◌ ◌>>◌
abbrev pub ◌>>=◌ {ℓ κ} : {A : Type ℓ} {C : Type κ} → Result A → (A → Result C) → Result C
fault >>= next = fault
exit status message >>= next = exit status message
ok value >>= next = next value

abbrev pub ◌>>◌ {κ} : {C : Type κ} → Result (Unit {0}) → Result C → Result C
fault >> rest = fault
exit status message >> rest = exit status message
ok _ >> rest = rest

-- `if (refused) { fprintf(stderr, …); exit(1); }`
abbrev pub refuse : Bool → Message → Result (Unit {0})
refuse true m = exit 1 m
refuse false m = ok tt

-- What is behind a step that went on.
pub >>=-eq-ok {ℓ κ} :
    {A : Type ℓ} {C : Type κ} (step : Result A) (next : A → Result C) {c : C}
    → (step >>= next) ≡ ok c
    → (value : A) × (step ≡ ok value) × (next value ≡ ok c)
>>=-eq-ok fault next e = cc
>>=-eq-ok (exit status message) next e = cc
>>=-eq-ok (ok value) next e = (value, refl, e)

-- Both go on, with related values, or both end in the same way.
abbrev pub Related {ℓ κ} :
    {A : Type ℓ} {B : Type κ} → (A → B → Type 0) → Result A → Result B → Type 0
Related R (ok a) (ok b) = R a b
Related R (exit n m) (exit n' m') = (n ≡ n') × (m ≡ m')
Related R fault fault = Unit
Related R _ _ = ⊥

module _ {ℓ κ} {C : Type ℓ} {D : Type κ} (S : C → D → Type 0) where
  pub >>=-Related {ι ν} :
      {A : Type ι} {B : Type ν} (R : A → B → Type 0) (m : Result A) (m' : Result B)
      (f : A → Result C) (f' : B → Result D)
      → Related R m m'
      → ((a : A) (b : B) → R a b → Related S (f a) (f' b))
      → Related S (m >>= f) (m' >>= f')
  >>=-Related R (ok a) (ok b) f f' h k = k a b h
  >>=-Related R (exit n m) (exit n' m') f f' h k = h
  >>=-Related R fault fault f f' h k = h
  >>=-Related R (ok a) (exit n m) f f' h k = absurd h
  >>=-Related R (ok a) fault f f' h k = absurd h
  >>=-Related R (exit n m) (ok b) f f' h k = absurd h
  >>=-Related R (exit n m) fault f f' h k = absurd h
  >>=-Related R fault (ok b) f f' h k = absurd h
  >>=-Related R fault (exit n m) f f' h k = absurd h

  -- Both begin with the same step.
  pub >>=-same {ι} :
      {A : Type ι} (m : Result A) (f : A → Result C) (f' : A → Result D)
      → ((a : A) → m ≡ ok a → Related S (f a) (f' a))
      → Related S (m >>= f) (m >>= f')
  >>=-same (ok a) f f' k = k a refl
  >>=-same (exit n m) f f' k = (refl, refl)
  >>=-same fault f f' k = tt

  pub if-Related :
      (b : Bool) (x y : Result C) (x' y' : Result D)
      → Related S x x'
      → Related S y y'
      → Related S (if b then x else y) (if b then x' else y')
  if-Related true x y x' y' h k = h
  if-Related false x y x' y' h k = k

pub Related-map {ℓ κ} :
    {A : Type ℓ} {B : Type κ} (R : A → B → Type 0) (S : A → B → Type 0)
    → ((a : A) (b : B) → R a b → S a b)
    → (m : Result A) (m' : Result B) → Related R m m'
    → Related S m m'
Related-map R S f (ok a) (ok b) h = f a b h
Related-map R S f (exit n m) (exit n' m') h = h
Related-map R S f fault fault h = h
Related-map R S f (ok a) (exit n m) h = absurd h
Related-map R S f (ok a) fault h = absurd h
Related-map R S f (exit n m) (ok b) h = absurd h
Related-map R S f (exit n m) fault h = absurd h
Related-map R S f fault (ok b) h = absurd h
Related-map R S f fault (exit n m) h = absurd h
