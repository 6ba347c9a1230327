-- ===== src/Store/Folders/Depth.antt =====
-- How long the walk to the root is: the query of `reparent` in crates/core-store/src/folders.rs.
use tern.Prelude.{
  ℕ, zero, suc, ◌≤◌, ◌≡◌, refl, sym, ap, ◌∙◌, subst, Bool, true, false, ◌||◌, Option, none, some,
  List, [], ◌∷◌, length, contains, All, Distinct, ◌==◌, nat_eq, nat_beq_iff, Bool-cases,
  Option-cases, inl, inr, false≢true, length-Distinct, arith,
}
use tern.Store.{Folder}
use tern.Store.Rows.{ids, length-ids}
use tern.Store.Hosts.{folder_keys}
use tern.Store.Folders.{parent_of, ancestors}

-- The walk from a folder to its root: the ids on the way, the folder's own first.
pub data Walk (fs : List Folder) : ℕ → List ℕ → Type 0 where
  ends : {i : ℕ} → parent_of fs i ≡ some none → Walk fs i (i ∷ [])
  climbs : {i p : ℕ} {w : List ℕ} → parent_of fs i ≡ some (some p) → Walk fs p w → Walk fs i (i ∷ w)

-- A folder from which the parents lead to one without a parent.
abbrev pub Rooted : List Folder → ℕ → Type 0
Rooted fs i = (w : List ℕ) × Walk fs i w

pub parent_of-contains :
    (fs : List Folder) (i : ℕ) (o : Option ℕ) → parent_of fs i ≡ some o → contains (ids fs) i ≡ true
unfolding parent_of
parent_of-contains [] i o h = cc
parent_of-contains (f ∷ fs) i o h =
    let ih : parent_of fs i ≡ some o → contains (ids fs) i ≡ true = parent_of-contains fs i o in
    ground arith

unknown : (fs : List Folder) (i : ℕ) → parent_of fs i ≡ none → contains (ids fs) i ≡ false
unfolding parent_of
unknown [] i n = refl
unknown (f ∷ fs) i n =
    let ih : parent_of fs i ≡ none → contains (ids fs) i ≡ false = unknown fs i in ground arith

pub parent_of-known :
    (fs : List Folder) (i : ℕ)
    → contains (ids fs) i ≡ true
    → (o : Option ℕ) × (parent_of fs i ≡ some o)
parent_of-known fs i h = elim (Option-cases (parent_of fs i)) [
  | inl n ↦ absurd (false≢true (sym (unknown fs i n) ∙ h))
  | inr r ↦ r
]

pub Walk-contains :
    (fs : List Folder) {i : ℕ} {w : List ℕ} → Walk fs i w → contains (ids fs) i ≡ true
Walk-contains fs {i} (ends e) = parent_of-contains fs i none e
Walk-contains fs {i} (climbs {p = p} e k) = parent_of-contains fs i (some p) e

module _ (fs : List Folder) where
  -- There is one walk from each folder.
  Walk-unique : {i : ℕ} {v w : List ℕ} → Walk fs i v → Walk fs i w → v ≡ w
  Walk-unique (ends e) (ends d) = refl
  Walk-unique (ends e) (climbs d k) = cc
  Walk-unique (climbs e j) (ends d) = cc
  Walk-unique {i} (climbs {p = p} e j) (climbs {p = q} {w = u} d k) =
      let same : p ≡ q = cc in
      ap (λ l. i ∷ l) (Walk-unique j (subst (λ n. Walk fs n u) (sym same) k))

  Walk-known : {i : ℕ} {w : List ℕ} → Walk fs i w → All (λ j. contains (ids fs) j ≡ true) w
  Walk-known {i} (ends e) = (parent_of-contains fs i none e, tt)
  Walk-known {i} (climbs {p = p} e k) = (parent_of-contains fs i (some p) e, Walk-known k)

  -- What stands on a walk has a walk that is no longer and visits nothing else.
  pub Walk-from :
      {i : ℕ} {w : List ℕ} (j : ℕ)
      → Walk fs i w
      → contains w j ≡ true
      → (v : List ℕ) × Walk fs j v
        × (length v ≤ length w)
        × ((n : ℕ) → contains v n ≡ true → contains w n ≡ true)
  Walk-from {i} {w} j (ends e) h = (
    w,
    subst (λ n. Walk fs n w) ((nat_beq_iff i j).0 (ground arith)) (ends e),
    omega arith,
    λ n c. c,
  )
  Walk-from {i} {w} j (climbs {p = p} {w = u} e k) h = elim (Bool-cases (i == j)) [
    | inl t ↦
        (w, subst (λ n. Walk fs n w) ((nat_beq_iff i j).0 t) (climbs e k), omega arith, λ n c. c)
    | inr f ↦
        let (v, l, b, sub) = Walk-from j k (ground arith) in
        (v, l, omega (arith, b), λ n c. right (i == n) (contains u n) (sub n c))
  ]
    where
      right : (a b : Bool) → b ≡ true → (a || b) ≡ true
      right a b h = ground arith

  Walk-Distinct : {i : ℕ} {w : List ℕ} → Walk fs i w → Distinct w
  Walk-Distinct (ends e) = (refl, tt)
  Walk-Distinct {i} (climbs {w = u} e k) = elim (Bool-cases (contains u i)) [
    | inl t ↦
        let (v, l, b, sub) = Walk-from i k t in absurd (longer v (Walk-unique l (climbs e k)) b)
    | inr f ↦ (f, Walk-Distinct k)
  ]
    where
      longer : (v : List ℕ) → v ≡ i ∷ u → ¬ (length v ≤ length u)
      longer v p b = omega (arith, ap length p, b)

  -- A walk visits each folder at most once.
  pub length-Walk : {i : ℕ} {w : List ℕ} → Walk fs i w → length w ≤ length fs
  length-Walk {i} {w} k =
      let b : length w ≤ length (ids fs) =
        length-Distinct w (ids fs) (Walk-Distinct k) (Walk-known k) in
      omega (arith, b, length-ids fs)

  ancestors-Walk :
      (n : ℕ) {i : ℕ} {w : List ℕ} → Walk fs i w → length w ≤ suc n → ancestors n fs i ≡ w
  unfolding ancestors
  ancestors-Walk zero (ends e) b = refl
  ancestors-Walk zero (climbs e (ends d)) b = absurd (omega (arith, b))
  ancestors-Walk zero (climbs e (climbs d k)) b = absurd (omega (arith, b))
  ancestors-Walk (suc n) (ends e) b = rw (e, ancestors) refl
  ancestors-Walk (suc n) {i} (climbs {p = p} e k) b =
      rw (e, ancestors) (ap (λ l. i ∷ l) (ancestors-Walk n k (omega (arith, b))))

-- The query of the ancestors ends: where the walk from a folder reaches a root, as many steps as there are folders find all of it.
pub ancestors_complete :
    (fs : List Folder) (i : ℕ) (w : List ℕ) → Walk fs i w → ancestors (length fs) fs i ≡ w
ancestors_complete fs i w k = ancestors-Walk fs (length fs) k (omega (arith, length-Walk fs k))
