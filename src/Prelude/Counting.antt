-- ===== src/Prelude/Counting.antt =====
-- A list without repetitions is no longer than a list that has all its elements.
use Prim.Native.Nat.{ℕ, suc, ◌≤◌}
use mathlib.Core.Path.{◌≡◌}
use mathlib.Core.Bool.{true, false}
use mathlib.Core.List.{List, [], ◌∷◌}
use native.Mathlib.Omega.{arith}
use tern.Prelude.Tests.{if◌then◌else◌, ◌==◌, nat_eq}
use tern.Prelude.Lists.{length, contains, All, Distinct}

-- A list less the first occurrence of an element.
unfoldable pub without : ℕ → List ℕ → List ℕ
without x [] = []
without x (y ∷ ys) = let rest = without x ys in if y == x then ys else y ∷ rest

length-without :
    (x : ℕ) (ys : List ℕ) → contains ys x ≡ true → length ys ≡ suc (length (without x ys))
unfolding without
length-without x [] h = cc
length-without x (y ∷ ys) h =
    let ih : contains ys x ≡ true → length ys ≡ suc (length (without x ys)) = length-without x ys in
    ground arith

contains-without :
    (x : ℕ) (ys : List ℕ) (z : ℕ)
    → (x == z) ≡ false
    → contains ys z ≡ true
    → contains (without x ys) z ≡ true
unfolding without
contains-without x [] z n h = h
contains-without x (y ∷ ys) z n h =
    let ih : contains ys z ≡ true → contains (without x ys) z ≡ true = contains-without x ys z n in
    ground arith

All-without :
    (x : ℕ) (ys xs : List ℕ)
    → contains xs x ≡ false
    → All (λ z. contains ys z ≡ true) xs
    → All (λ z. contains (without x ys) z ≡ true) xs
All-without x ys [] n h = tt
All-without x ys (z ∷ xs) n (h, hs) =
    (contains-without x ys z (ground arith) h, All-without x ys xs (ground arith) hs)

pub length-Distinct :
    (xs ys : List ℕ) → Distinct xs → All (λ z. contains ys z ≡ true) xs → length xs ≤ length ys
length-Distinct [] ys d h = omega arith
length-Distinct (x ∷ xs) ys (n, d) (h, hs) =
    let ih : length xs ≤ length (without x ys) =
      length-Distinct xs (without x ys) d (All-without x ys xs n hs) in
    omega (arith, ih, length-without x ys h)
