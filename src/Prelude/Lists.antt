-- ===== src/Prelude/Lists.antt =====
-- Lists measured and indexed by native numbers, under the library's names.
use Prim.Native.Nat.{ℕ, zero, suc, ◌+◌, ◌≤◌, ◌<◌}
use mathlib.Core.Path.{◌≡◌, refl, sym, ◌∙◌}
use mathlib.Core.Bool.{Bool, true, false, ◌&&◌, ◌||◌, false≢true}
use mathlib.Core.List.{List, [], ◌∷◌, ◌++◌}
use mathlib.Core.Logic.{◌⊎◌, inl, inr}
use mathlib.Core.Option.{Option, none, some}
use native.Mathlib.Omega.{arith}
use native.Mathlib.Numerals.{add-one}
use tern.Prelude.Tests.{if◌then◌else◌, PartialEq, Bool-cases}

module _ {ℓ} {A : Type ℓ} where
  abbrev pub length : List A → ℕ
  length [] = 0
  length (x ∷ xs) = suc (length xs)

  abbrev pub get_elem? : List A → ℕ → Option A
  get_elem? [] i = none
  get_elem? (x ∷ xs) zero = some x
  get_elem? (x ∷ xs) (suc i) = get_elem? xs i

  abbrev pub drop : ℕ → List A → List A
  drop zero xs = xs
  drop (suc n) [] = []
  drop (suc n) (x ∷ xs) = drop n xs

  abbrev pub take : ℕ → List A → List A
  take zero xs = []
  take (suc n) [] = []
  take (suc n) (x ∷ xs) = x ∷ take n xs

  abbrev pub is_empty : List A → Bool
  is_empty [] = true
  is_empty (x ∷ xs) = false

  abbrev pub any : (A → Bool) → List A → Bool
  any p [] = false
  any p (x ∷ xs) = p x || any p xs

  -- `Iterator::filter`, by a Boolean test.
  abbrev pub filter : (A → Bool) → List A → List A
  filter p [] = []
  filter p (x ∷ xs) = let rest = filter p xs in if p x then x ∷ rest else rest

  abbrev pub filter_map {κ} : {B : Type κ} → (A → Option B) → List A → List B
  filter_map f [] = []
  filter_map f (x ∷ xs) =
      let rest = filter_map f xs in elim (f x) [ none ↦ rest | some y ↦ y ∷ rest ]

  pub length-append : (xs ys : List A) → length (xs ++ ys) ≡ length xs + length ys
  length-append [] ys = omega arith
  length-append (x ∷ xs) ys = omega (arith, length-append xs ys)

  pub drop-some :
      (i : ℕ) (xs : List A) (x : A) → get_elem? xs i ≡ some x → drop i xs ≡ x ∷ drop (suc i) xs
  drop-some zero [] x h = cc
  drop-some zero (y ∷ xs) x h = cc
  drop-some (suc i) [] x h = cc
  drop-some (suc i) (y ∷ xs) x h = drop-some i xs x h

  pub get_elem?-none : (xs : List A) (i : ℕ) → get_elem? xs i ≡ none → length xs ≤ i
  get_elem?-none [] i h = omega arith
  get_elem?-none (y ∷ xs) zero h = cc
  get_elem?-none (y ∷ xs) (suc i) h = omega (arith, get_elem?-none xs i h)

  pub drop-get_elem :
      (i : ℕ) (xs : List A) (x : A) → get_elem? xs i ≡ some x → drop i xs ≡ x ∷ drop (i + 1) xs
  drop-get_elem i xs x h = rw add-one (drop-some i xs x h)

  pub drop-none : (i : ℕ) (xs : List A) → get_elem? xs i ≡ none → drop i xs ≡ []
  drop-none zero [] h = refl
  drop-none zero (y ∷ xs) h = cc
  drop-none (suc i) [] h = refl
  drop-none (suc i) (y ∷ xs) h = drop-none i xs h

  pub get_elem?-lt : (xs : List A) (i : ℕ) (x : A) → get_elem? xs i ≡ some x → i < length xs
  get_elem?-lt [] i x h = cc
  get_elem?-lt (y ∷ xs) zero x h = omega arith
  get_elem?-lt (y ∷ xs) (suc i) x h = omega (arith, get_elem?-lt xs i x h)

-- A statement about each element.
abbrev pub All {ℓ κ} : {A : Type ℓ} → (A → Type κ) → List A → Type κ
All P [] = Unit
All P (x ∷ xs) = P x × All P xs

-- What passes a test has what the test shows.
pub All-filter {ℓ κ} :
    {A : Type ℓ} {P : A → Type κ} (q : A → Bool)
    → ((x : A) → q x ≡ true → P x)
    → (xs : List A) → All P (filter q xs)
All-filter q h [] = tt
All-filter {P = P} q h (x ∷ xs) = keep_if (q x) (h x) (All-filter q h xs)
  where
    keep_if :
        (b : Bool)
        → (b ≡ true → P x)
        → All P (filter q xs)
        → All P (if b then x ∷ filter q xs else filter q xs)
    keep_if true k ps = (k refl, ps)
    keep_if false k ps = ps

pub any-filter {ℓ} :
    {A : Type ℓ} (p q : A → Bool) (xs : List A) → any p (filter q xs) ≡ any (λ x. q x && p x) xs
any-filter p q [] = refl
any-filter p q (x ∷ xs) =
    let ih : any p (filter q xs) ≡ any (λ x. q x && p x) xs = any-filter p q xs in ground arith

-- A statement about some element.
abbrev pub Exists {ℓ} : {A : Type ℓ} → (A → Type 0) → List A → Type 0
Exists P [] = ⊥
Exists P (x ∷ xs) = P x ⊎ Exists P xs

-- `Vec::contains`, `BTreeSet::contains`.
abbrev pub contains {ℓ} : {A : Type ℓ} ⦃e : PartialEq A⦄ → List A → A → Bool
contains ⦃e⦄ [] a = false
contains ⦃e⦄ (x ∷ xs) a = e.eq x a || contains xs a

-- No element stands twice.
abbrev pub Distinct {ℓ} : {A : Type ℓ} ⦃e : PartialEq A⦄ → List A → Type 0
Distinct ⦃e⦄ [] = Unit
Distinct ⦃e⦄ (x ∷ xs) = (contains xs x ≡ false) × Distinct xs

module _ {ℓ} {A : Type ℓ} ⦃e : PartialEq A⦄ where
  pub contains-snoc :
      (xs : List A) (p a : A) → contains (xs ++ p ∷ []) a ≡ (contains xs a || e.eq p a)
  contains-snoc [] p a = ground arith
  contains-snoc (x ∷ xs) p a = rw (contains-snoc xs p a) (ground arith)

  -- What a list does not contain, none of its elements is.
  pub contains-none : (xs : List A) (a : A) → contains xs a ≡ false → All (λ x. ¬ (x ≡ a)) xs
  contains-none [] a h = tt
  contains-none (x ∷ xs) a h = (
    (λ p. absurd (false≢true (sym (not_first (e.eq x a) (contains xs a) h) ∙ (e.eq_iff x a).1 p))),
    contains-none xs a (ground arith),
  )
    where
      not_first : (b c : Bool) → (b || c) ≡ false → b ≡ false
      not_first b c h = ground arith

  beq_sym_false : (x y : A) → e.eq x y ≡ false → e.eq y x ≡ false
  beq_sym_false x y h = elim (Bool-cases (e.eq y x)) [
    | inl t ↦ absurd (false≢true (sym h ∙ (e.eq_iff x y).1 (sym ((e.eq_iff y x).0 t))))
    | inr f ↦ f
  ]

  pub Distinct-snoc :
      (xs : List A) (p : A) → Distinct xs → contains xs p ≡ false → Distinct (xs ++ p ∷ [])
  Distinct-snoc [] p d h = (refl, tt)
  Distinct-snoc (x ∷ xs) p (n, d) h = (
    rw (contains-snoc xs p x, n) (beq_sym_false x p (ground arith)),
    Distinct-snoc xs p d (ground arith),
  )

-- A case split on a computed option that keeps the equation.
pub Option-cases {ℓ} : {A : Type ℓ} (o : Option A) → (o ≡ none) ⊎ ((a : A) × (o ≡ some a))
Option-cases none = inl refl
Option-cases (some a) = inr (a, refl)

-- The first element of a list for which `P` holds.
pub data FirstOf {ℓ} {A : Type ℓ} (P : A → Type 0) (x : A) : List A → Type ℓ where
  here : {xs : List A} → P x → FirstOf P x (x ∷ xs)
  later : {y : A} {xs : List A} → ¬ P y → FirstOf P x xs → FirstOf P x (y ∷ xs)

module _ {ℓ} {A : Type ℓ} {P : A → Type 0} where
  pub FirstOf_holds : {x : A} {xs : List A} → FirstOf P x xs → P x
  FirstOf_holds (here h) = h
  FirstOf_holds (later n f) = FirstOf_holds f

  pub FirstOf-unique : {x y : A} {xs : List A} → FirstOf P x xs → FirstOf P y xs → x ≡ y
  FirstOf-unique (here h) (here k) = refl
  FirstOf-unique (here h) (later n f) = absurd (n h)
  FirstOf-unique (later n f) (here k) = absurd (n k)
  FirstOf-unique (later n f) (later m g) = FirstOf-unique f g

  pub no_first : {x : A} {xs : List A} → FirstOf P x xs → ¬ All (λ y. ¬ P y) xs
  no_first (here h) (n, a) = n h
  no_first (later m f) (n, a) = no_first f a
