-- ===== src/Store/Folders/Tree.antt =====
-- The folders in the order of the tree: `tree` of crates/core-store/src/folders.rs.
use tern.Prelude.{
  ℕ, zero, suc, ◌+◌, ◌≤◌, ◌<◌, ◌≡◌, refl, ap, ◌∙◌, Bool, true, false, ◌||◌, Option, none, some,
  List, [], ◌∷◌, ◌++◌, false≢true, filter, any, contains, length, ltb, ◌==◌, nat_eq, nat_beq_iff,
  if◌then◌else◌, to_ascii_lowercase, arith, Bool-cases, inl, inr, sort_by, any-sort_by, All-sort_by,
  All-filter, any-filter, ◌&&◌, text_before, All,
}
use tern.Store.{Folder}
use tern.Store.Rows.{ids}
use tern.Store.Hosts.{folder_keys}
use tern.Store.Folders.{parent_of}
use tern.Store.Folders.Depth.{Walk, ends, climbs, length-Walk, parent_of-known}
use tern.Store.Folders.Forest.{Forest}

-- `ORDER BY position, name COLLATE NOCASE`
unfoldable pub sibling_before : Folder → Folder → Bool
unfolding text_before to_ascii_lowercase
sibling_before f g =
    if f.position == g.position
    then text_before (to_ascii_lowercase f.name) (to_ascii_lowercase g.name)
    else ltb f.position g.position

abbrev pub is_root : Option ℕ → Bool
is_root none = true
is_root (some p) = false

abbrev pub is_child : List ℕ → Option ℕ → Bool
is_child level none = false
is_child level (some p) = contains level p

-- The rows of the recursive query `walk` by their depth: each level holds the folders whose parent the level before holds.
unfoldable pub levels : ℕ → List Folder → List Folder → List Folder
unfolding sort_by sibling_before
levels zero fs level = []
levels (suc n) fs level =
    level
    ++ levels n fs (sort_by sibling_before (filter (λ f. is_child (ids level) f.parent_id) fs))

unfoldable pub tree : List Folder → List Folder
unfolding levels
tree fs = levels (length fs) fs (sort_by sibling_before (filter (λ f. is_root f.parent_id) fs))

-- A list in which each parent stands before its children; `seen` has the ids in front of it.
unfoldable pub ParentsFirst : List ℕ → List Folder → Type 0
ParentsFirst seen [] = Unit
ParentsFirst seen (f ∷ fs) =
    ((is_root f.parent_id || is_child seen f.parent_id) ≡ true) × ParentsFirst (f.id ∷ seen) fs

abbrev placed : List ℕ → Folder → Bool
placed seen f = is_root f.parent_id || is_child seen f.parent_id

-- What stands in `a` stands in `b`.
abbrev Within : List ℕ → List ℕ → Type 0
Within a b = (p : ℕ) → contains a p ≡ true → contains b p ≡ true

placed_later :
    (a b : List ℕ)
    → Within a b
    → (o : Option ℕ) → (is_root o || is_child a o) ≡ true
    → (is_root o || is_child b o) ≡ true
placed_later a b s none h = refl
placed_later a b s (some p) h = s p h

child_placed :
    (a b : List ℕ)
    → Within a b
    → (o : Option ℕ) → is_child a o ≡ true
    → (is_root o || is_child b o) ≡ true
child_placed a b s none h = refl
child_placed a b s (some p) h = s p h

root_placed : (a : List ℕ) (o : Option ℕ) → is_root o ≡ true → (is_root o || is_child a o) ≡ true
root_placed a none h = refl
root_placed a (some p) h = cc

or_right : (a b : Bool) → b ≡ true → (a || b) ≡ true
or_right a b h = ground arith

or_left : (a b : Bool) → a ≡ true → (a || b) ≡ true
or_left a b h = ground arith

or_rest : (a b : Bool) → a ≡ false → (a || b) ≡ true → b ≡ true
or_rest a b n h = ground arith

All-later :
    (a b : List ℕ)
    → Within a b
    → (fs : List Folder) → All (λ f. placed a f ≡ true) fs
    → All (λ f. placed b f ≡ true) fs
All-later a b s [] h = tt
All-later a b s (f ∷ fs) (h, hs) = (placed_later a b s f.parent_id h, All-later a b s fs hs)

ParentsFirst-append :
    (seen : List ℕ) (level rest : List Folder)
    → All (λ f. placed seen f ≡ true) level
    → ((later : List ℕ) → Within seen later → Within (ids level) later → ParentsFirst later rest)
    → ParentsFirst seen (level ++ rest)
unfolding ParentsFirst
ParentsFirst-append seen [] rest h k = k seen (λ p c. c) (λ p c. absurd (false≢true c))
ParentsFirst-append seen (f ∷ level) rest (h, hs) k = (
  h,
  ParentsFirst-append (f.id ∷ seen) level rest
      (All-later seen (f.id ∷ seen) (λ p c. or_right (f.id == p) (contains seen p) c) level hs)
      (λ later s l.
        k later (λ p c. s p (or_right (f.id == p) (contains seen p) c))
          (λ p c. elim (Bool-cases (f.id == p)) [
            | inl t ↦ s p (or_left (f.id == p) (contains seen p) t)
            | inr n ↦ l p (or_rest (f.id == p) (contains (ids level) p) n c)
          ])),
)

ParentsFirst-levels :
    (n : ℕ) (fs : List Folder) (seen : List ℕ) (level : List Folder)
    → All (λ f. placed seen f ≡ true) level
    → ParentsFirst seen (levels n fs level)
unfolding levels ParentsFirst
ParentsFirst-levels zero fs seen level h = tt
ParentsFirst-levels (suc n) fs seen level h = ParentsFirst-append seen level _ h (λ later s l.
    ParentsFirst-levels n fs later _ (
      All-sort_by sibling_before (λ f. placed later f ≡ true)
        (filter (λ f. is_child (ids level) f.parent_id) fs)
        (All-filter (λ f. is_child (ids level) f.parent_id)
          (λ f c. child_placed (ids level) later l f.parent_id c) fs)))

-- In the tree every parent stands before its children, whatever the rows are.
tree-ParentsFirst : (fs : List Folder) → ParentsFirst [] (tree fs)
unfolding tree
tree-ParentsFirst fs = ParentsFirst-levels (length fs) fs [] _ (
    All-sort_by sibling_before (λ f. placed [] f ≡ true) (filter (λ f. is_root f.parent_id) fs)
      (All-filter (λ f. is_root f.parent_id) (λ f r. root_placed [] f.parent_id r) fs))

-- The ids of a list, as a test on its elements.
contains-ids : (fs : List Folder) (i : ℕ) → contains (ids fs) i ≡ any (λ f. f.id == i) fs
contains-ids [] i = refl
contains-ids (f ∷ fs) i = ap (λ b. f.id == i || b) (contains-ids fs i)

present :
    (q : Option ℕ → Bool) (i : ℕ) (o : Option ℕ)
    → q o ≡ true
    → (fs : List Folder) → parent_of fs i ≡ some o
    → any (λ f. q f.parent_id && (f.id == i)) fs ≡ true
unfolding parent_of
present q i o h [] e = cc
present q i o h (f ∷ fs) e =
    let ih : parent_of fs i ≡ some o → any (λ f. q f.parent_id && (f.id == i)) fs ≡ true =
      present q i o h fs in
    ground arith

-- A folder is in a level when its parent passes the level's test.
in_level :
    (q : Option ℕ → Bool) (fs : List Folder) (i : ℕ) (o : Option ℕ)
    → parent_of fs i ≡ some o
    → q o ≡ true
    → contains (ids (sort_by sibling_before (filter (λ f. q f.parent_id) fs))) i ≡ true
in_level q fs i o e h =
    contains-ids (sort_by sibling_before (filter (λ f. q f.parent_id) fs)) i
    ∙ any-sort_by sibling_before (λ f. f.id == i) (filter (λ f. q f.parent_id) fs)
    ∙ any-filter (λ f. f.id == i) (λ f. q f.parent_id) fs
    ∙ present q i o h fs e

contains-append :
    (a b : List Folder) (i : ℕ)
    → contains (ids (a ++ b)) i ≡ (contains (ids a) i || contains (ids b) i)
contains-append [] b i = refl
contains-append (f ∷ a) b i =
    let ih : contains (ids (a ++ b)) i ≡ (contains (ids a) i || contains (ids b) i) =
      contains-append a b i in
    ground arith

LevelOf : List Folder → ℕ → List Folder → Type 0
LevelOf fs k level =
    (i : ℕ) (w : List ℕ) → Walk fs i w → length w ≡ suc k → contains (ids level) i ≡ true

first_level :
    (fs : List Folder)
    → LevelOf fs 0 (sort_by sibling_before (filter (λ f. is_root f.parent_id) fs))
unfolding LevelOf
first_level fs i _ (ends e) l = in_level is_root fs i none e refl
first_level fs i _ (climbs e (ends d)) l = absurd (omega (arith, l))
first_level fs i _ (climbs e (climbs d k)) l = absurd (omega (arith, l))

next_level :
    (k : ℕ) (fs level : List Folder)
    → LevelOf fs k level
    → LevelOf fs
        (suc k)
        (sort_by sibling_before (filter (λ f. is_child (ids level) f.parent_id) fs))
unfolding LevelOf
next_level k fs level h i _ (ends e) l = absurd (omega (arith, l))
next_level k fs level h i _ (climbs {p = p} {w = u} e walk) l =
    in_level (is_child (ids level)) fs i (some p) e (h p u walk (omega (arith, l)))

-- The levels behind one that holds the folders of a depth hold those that are deeper.
levels-reach :
    (n k : ℕ) (fs level : List Folder)
    → LevelOf fs k level
    → (i : ℕ) (w : List ℕ) → Walk fs i w
    → k < length w
    → length w ≤ k + n
    → contains (ids (levels n fs level)) i ≡ true
unfolding levels LevelOf
levels-reach zero k fs level h i w walk low high = absurd (omega (arith, low, high))
levels-reach (suc n) k fs level h i w walk low high = elim (Bool-cases (length w == suc k)) [
  | inl t ↦
      contains-append level _ i ∙ or_left _ _ (h i w walk ((nat_beq_iff (length w) (suc k)).0 t))
  | inr f ↦
      contains-append level _ i
      ∙ or_right (contains (ids level) i) _ (
          levels-reach n (suc k) fs _ (next_level k fs level h) i w walk (ground arith)
            (omega (arith, high)))
]

-- As many levels as there are folders hold every folder that leads to a root.
tree_reaches :
    (fs : List Folder) (i : ℕ) (w : List ℕ) → Walk fs i w → contains (ids (tree fs)) i ≡ true
unfolding tree
tree_reaches fs i w walk =
    levels-reach (length fs) 0 fs _ (first_level fs) i w walk (not_empty walk)
      (omega (arith, length-Walk fs walk))
  where
    not_empty : {i : ℕ} {w : List ℕ} → Walk fs i w → 0 < length w
    not_empty (ends e) = omega arith
    not_empty (climbs e k) = omega arith

-- The tree lists every folder, each parent before its children, where each folder leads to a root by its parents.
pub tree_complete :
    (fs : List Folder)
    → Forest fs
    → ParentsFirst [] (tree fs)
      × ((i : ℕ) → contains (ids fs) i ≡ true → contains (ids (tree fs)) i ≡ true)
unfolding Forest
tree_complete fs forest = (
  tree-ParentsFirst fs,
  λ i h. let (o, e) = parent_of-known fs i h in let (w, k) = forest i o e in tree_reaches fs i w k,
)
