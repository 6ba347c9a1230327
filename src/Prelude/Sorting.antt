-- ===== src/Prelude/Sorting.antt =====
-- `ORDER BY`, as an insertion sort; rows that tie stay in their order.
use mathlib.Core.Path.{◌≡◌, refl, ap, ◌∙◌}
use mathlib.Core.Bool.{Bool, true, false, ◌||◌}
use mathlib.Core.List.{List, [], ◌∷◌}
use native.Mathlib.Omega.{arith}
use tern.Prelude.Tests.{ltb, nat_beq, if◌then◌else◌}
use tern.Prelude.Lists.{any, All}
use tern.Prelude.Texts.{Text}

module _ {ℓ} {A : Type ℓ} (before : A → A → Bool) where
  unfoldable pub insert_by : A → List A → List A
  insert_by x [] = x ∷ []
  insert_by x (y ∷ ys) = let rest = insert_by x ys in if before y x then y ∷ rest else x ∷ y ∷ ys

  unfoldable pub sort_by : List A → List A
  unfolding insert_by
  sort_by [] = []
  sort_by (x ∷ xs) = insert_by x (sort_by xs)

  any-insert_by : (p : A → Bool) (x : A) (ys : List A) → any p (insert_by x ys) ≡ (p x || any p ys)
  unfolding insert_by
  any-insert_by p x [] = refl
  any-insert_by p x (y ∷ ys) =
      let ih : any p (insert_by x ys) ≡ (p x || any p ys) = any-insert_by p x ys in ground arith

  pub any-sort_by : (p : A → Bool) (xs : List A) → any p (sort_by xs) ≡ any p xs
  unfolding sort_by
  any-sort_by p [] = refl
  any-sort_by p (x ∷ xs) = any-insert_by p x (sort_by xs) ∙ ap (λ b. p x || b) (any-sort_by p xs)

  module _ {κ} (P : A → Type κ) where
    All-insert_by : (x : A) (ys : List A) → P x → All P ys → All P (insert_by x ys)
    unfolding insert_by
    All-insert_by x [] p ps = (p, tt)
    All-insert_by x (y ∷ ys) p (q, qs) =
        All-if (before y x) (y ∷ insert_by x ys) (x ∷ y ∷ ys) (q, All-insert_by x ys p qs)
          (p, (q, qs))
      where
        All-if : (b : Bool) (xs zs : List A) → All P xs → All P zs → All P (if b then xs else zs)
        All-if true xs zs u v = u
        All-if false xs zs u v = v

    pub All-sort_by : (xs : List A) → All P xs → All P (sort_by xs)
    unfolding sort_by
    All-sort_by [] ps = tt
    All-sort_by (x ∷ xs) (p, ps) = All-insert_by x (sort_by xs) p (All-sort_by xs ps)

-- No element is before the one that it follows.
abbrev pub NotBefore {ℓ} : {A : Type ℓ} → (A → A → Bool) → A → List A → Type 0
NotBefore before x [] = Unit
NotBefore before x (y ∷ ys) = before y x ≡ false

abbrev pub InOrder {ℓ} : {A : Type ℓ} → (A → A → Bool) → List A → Type 0
InOrder before [] = Unit
InOrder before (x ∷ xs) = NotBefore before x xs × InOrder before xs

module _ {ℓ} {A : Type ℓ} (before : A → A → Bool)
    (asymmetric : (x y : A) → before x y ≡ true → before y x ≡ false) where
  NotBefore-insert_by :
      (y x : A) (ys : List A)
      → before x y ≡ false
      → NotBefore before y ys
      → NotBefore before y (insert_by before x ys)
  unfolding insert_by
  NotBefore-insert_by y x [] h n = h
  NotBefore-insert_by y x (z ∷ ys) h n = by_test (before z x)
    where
      by_test :
          (b : Bool) → NotBefore before y (if b then z ∷ insert_by before x ys else x ∷ z ∷ ys)
      by_test true = n
      by_test false = h

  InOrder-insert_by :
      (x : A) (ys : List A) → InOrder before ys → InOrder before (insert_by before x ys)
  unfolding insert_by
  InOrder-insert_by x [] o = (tt, tt)
  InOrder-insert_by x (y ∷ ys) (n, o) = by_test (before y x) refl (InOrder-insert_by x ys o)
    where
      by_test :
          (b : Bool)
          → before y x ≡ b
          → InOrder before (insert_by before x ys)
          → InOrder before (if b then y ∷ insert_by before x ys else x ∷ y ∷ ys)
      by_test true e o' = (NotBefore-insert_by y x ys (asymmetric y x e) n, o')
      by_test false e o' = (e, (n, o))

  pub sort_by-InOrder : (xs : List A) → InOrder before (sort_by before xs)
  unfolding sort_by
  sort_by-InOrder [] = tt
  sort_by-InOrder (x ∷ xs) = InOrder-insert_by x (sort_by before xs) (sort_by-InOrder xs)

-- The order of texts, by code points.
unfoldable pub text_before : Text → Text → Bool
text_before [] [] = false
text_before [] (d ∷ t) = true
text_before (c ∷ s) [] = false
text_before (c ∷ s) (d ∷ t) =
    let rest = text_before s t in if ltb c d then true else if nat_beq c d then rest else false

pub text_before-asymmetric : (a b : Text) → text_before a b ≡ true → text_before b a ≡ false
unfolding text_before
text_before-asymmetric [] [] h = refl
text_before-asymmetric [] (d ∷ b) h = refl
text_before-asymmetric (c ∷ a) [] h = cc
text_before-asymmetric (c ∷ a) (d ∷ b) h =
    let ih : text_before a b ≡ true → text_before b a ≡ false = text_before-asymmetric a b in
    ground arith
