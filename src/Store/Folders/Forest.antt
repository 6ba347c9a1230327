-- ===== src/Store/Folders/Forest.antt =====
-- The folders form a forest: crates/core-store/src/folders.rs.
use tern.Prelude.{
  ℕ, ◌≡◌, refl, sym, ap, ◌∙◌, subst, Bool, true, false, not, ◌||◌, Option, none, some, List, [],
  ◌∷◌, ◌++◌, contains, filter, ◌==◌, nat_eq, nat_beq_iff, Bool-cases, ◌⊎◌, inl, inr, false≢true,
  if◌then◌else◌, arith,
}
use mathlib.Core.Option
use tern.Store.{Folder}
use tern.Store.Rows.{ids, change_row}
use tern.Store.Hosts.{folder_keys, folder_exists}
use tern.Store.Folders.{parent_of, is_descendant, kept_folders}
use tern.Store.Folders.Depth.{
  Walk, ends, climbs, Rooted, Walk-from, ancestors_complete, parent_of-known, Walk-contains,
}

-- Each folder that is there leads to a root.
unfoldable pub Forest : List Folder → Type 0
Forest fs = (i : ℕ) (o : Option ℕ) → parent_of fs i ≡ some o → Rooted fs i

-- A walk on which no parent changes.
Walk-same :
    (fs fs' : List Folder) {i : ℕ} {w : List ℕ}
    → Walk fs i w
    → ((j : ℕ) → contains w j ≡ true → parent_of fs' j ≡ parent_of fs j)
    → Walk fs' i w
Walk-same fs fs' {i} (ends e) same = ends (same i (first i []) ∙ e)
  where
    first : (i : ℕ) (w : List ℕ) → contains (i ∷ w) i ≡ true
    first i w = ground arith
Walk-same fs fs' {i} (climbs {p = p} {w = w} e k) same =
    climbs (same i (first i w) ∙ e)
      (Walk-same fs fs' k (λ j c. same j (later (i == j) (contains w j) c)))
  where
    first : (i : ℕ) (w : List ℕ) → contains (i ∷ w) i ≡ true
    first i w = ground arith

    later : (a b : Bool) → b ≡ true → (a || b) ≡ true
    later a b h = ground arith

parent_of-change :
    (g : Folder → Folder) (o : Option ℕ) (id : ℕ) (fs : List Folder) (i : ℕ)
    → ((f : Folder) → (g f).id ≡ f.id)
    → ((f : Folder) → (g f).parent_id ≡ o)
    → parent_of (change_row g id fs) i
      ≡ (if id == i then Option.map (λ p. o) (parent_of fs i) else parent_of fs i)
unfolding parent_of change_row
parent_of-change g o id [] i k s = ground arith
parent_of-change g o id (f ∷ fs) i k s =
    let ih : parent_of (change_row g id fs) i
        ≡ (if id == i then Option.map (λ p. o) (parent_of fs i) else parent_of fs i) =
      parent_of-change g o id fs i k s in
    let same : (g f).id ≡ f.id = k f in let sets : (g f).parent_id ≡ o = s f in ground arith

parent_of-kept :
    (g : Folder → Folder) (id : ℕ) (fs : List Folder) (i : ℕ)
    → ((f : Folder) → (g f).id ≡ f.id)
    → ((f : Folder) → (g f).parent_id ≡ f.parent_id)
    → parent_of (change_row g id fs) i ≡ parent_of fs i
unfolding parent_of change_row
parent_of-kept g id [] i k s = refl
parent_of-kept g id (f ∷ fs) i k s =
    let ih : parent_of (change_row g id fs) i ≡ parent_of fs i = parent_of-kept g id fs i k s in
    let same : (g f).id ≡ f.id = k f in
    let sets : (g f).parent_id ≡ f.parent_id = s f in ground arith

parent_of-filter :
    (keep : ℕ → Bool) (fs : List Folder) (i : ℕ)
    → parent_of (filter (λ f. keep f.id) fs) i ≡ (if keep i then parent_of fs i else none)
unfolding parent_of
parent_of-filter keep [] i = ground arith
parent_of-filter keep (f ∷ fs) i =
    let ih : parent_of (filter (λ f. keep f.id) fs) i ≡ (if keep i then parent_of fs i else none) =
      parent_of-filter keep fs i in
    elim (Bool-cases (f.id == i)) [
      | inl t ↦ let e : keep f.id ≡ keep i = ap keep ((nat_beq_iff f.id i).0 t) in ground arith
      | inr n ↦ ground arith
    ]

parent_of-snoc :
    (fs : List Folder) (f : Folder) (i : ℕ)
    → contains (ids fs) f.id ≡ false
    → parent_of (fs ++ f ∷ []) i ≡ (if f.id == i then some f.parent_id else parent_of fs i)
unfolding parent_of
parent_of-snoc [] f i h = refl
parent_of-snoc (g ∷ fs) f i h =
    let ih : contains (ids fs) f.id ≡ false
        → parent_of (fs ++ f ∷ []) i ≡ (if f.id == i then some f.parent_id else parent_of fs i) =
      parent_of-snoc fs f i in
    ground arith

-- An element is none that the list does not have.
unlike : (is : List ℕ) (a j : ℕ) → contains is a ≡ false → contains is j ≡ true → (a == j) ≡ false
unlike [] a j n h = cc
unlike (i ∷ is) a j n h =
    let ih : contains is a ≡ false → contains is j ≡ true → (a == j) ≡ false = unlike is a j in
    ground arith

itself : (n : ℕ) (a b : Option (Option ℕ)) → (if n == n then a else b) ≡ a
itself n a b = ground arith

not_in : (w : List ℕ) (j : ℕ) → ¬ (contains w j ≡ true) → contains w j ≡ false
not_in w j n = elim (Bool-cases (contains w j)) [ inl t ↦ absurd (n t) | inr f ↦ f ]

module _ (fs : List Folder) (forest : Forest fs) where
  -- What stands on a walk is a folder.
  on_Walk :
      {i : ℕ} {w : List ℕ}
      → Walk fs i w
      → (j : ℕ) → contains w j ≡ true
      → contains (ids fs) j ≡ true
  on_Walk k j c = let (v, l, b, sub) = Walk-from fs j k c in Walk-contains fs l

  known_Rooted : (i : ℕ) → contains (ids fs) i ≡ true → Rooted fs i
  unfolding Forest
  known_Rooted i h = let (o, e) = parent_of-known fs i h in forest i o e

  module _ (f : Folder) (free : contains (ids fs) f.id ≡ false) where
    old_other : (i : ℕ) → (f.id == i) ≡ false → parent_of (fs ++ f ∷ []) i ≡ parent_of fs i
    old_other i n = rw (parent_of-snoc fs f i free, n) refl

    old_Rooted : {i : ℕ} → Rooted fs i → Rooted (fs ++ f ∷ []) i
    old_Rooted (w, k) = (
      w,
      Walk-same fs (fs ++ f ∷ []) k
          (λ j c. old_other j (unlike (ids fs) f.id j free (on_Walk k j c))),
    )

    new_Rooted :
        folder_exists fs f.parent_id ≡ true
        → (o : Option ℕ) → o ≡ f.parent_id
        → parent_of (fs ++ f ∷ []) f.id ≡ some o
        → Rooted (fs ++ f ∷ []) f.id
    unfolding folder_exists
    new_Rooted there none e q = (f.id ∷ [], ends q)
    new_Rooted there (some p) e q =
        let (w, k) =
          old_Rooted (known_Rooted p (subst (λ o. folder_exists fs o ≡ true) (sym e) there)) in
        (f.id ∷ w, climbs q k)

    own : parent_of (fs ++ f ∷ []) f.id ≡ some f.parent_id
    own = parent_of-snoc fs f f.id free ∙ itself f.id (some f.parent_id) (parent_of fs f.id)

    -- Behind a row whose id was free.
    pub Forest-snoc : folder_exists fs f.parent_id ≡ true → Forest (fs ++ f ∷ [])
    unfolding Forest
    Forest-snoc there i o e = elim (Bool-cases (f.id == i)) [
      | inl t ↦
          let q : f.id ≡ i = (nat_beq_iff f.id i).0 t in
          subst (λ n. Rooted (fs ++ f ∷ []) n) q (new_Rooted there f.parent_id refl own)
      | inr n ↦ old_Rooted (forest i o (sym (old_other i n) ∙ e))
    ]

  -- No parent changes.
  pub Forest-change :
      (g : Folder → Folder) (id : ℕ)
      → ((f : Folder) → (g f).id ≡ f.id)
      → ((f : Folder) → (g f).parent_id ≡ f.parent_id)
      → Forest (change_row g id fs)
  unfolding Forest
  Forest-change g id k s i o e =
      let (w, walk) = forest i o (sym (parent_of-kept g id fs i k s) ∙ e) in
      (w, Walk-same fs (change_row g id fs) walk (λ j c. parent_of-kept g id fs j k s))

  survives :
      (id : ℕ)
      → {i : ℕ} {w : List ℕ} → Walk fs i w
      → contains w id ≡ false
      → parent_of (kept_folders id fs fs) i ≡ parent_of fs i
  unfolding kept_folders is_descendant
  survives id {i} {w} k c =
      rw (parent_of-filter (λ j. not (is_descendant fs j id)) fs i, ancestors_complete fs i w k, c)
        refl

  outside :
      (id : ℕ) {i : ℕ} {w : List ℕ}
      → Walk fs i w
      → is_descendant fs i id ≡ false
      → contains w id ≡ false
  unfolding is_descendant
  outside id {i} {w} k d = ap (λ l. contains l id) (sym (ancestors_complete fs i w k)) ∙ d

  kept :
      (id i : ℕ)
      → is_descendant fs i id ≡ false
      → parent_of (kept_folders id fs fs) i ≡ parent_of fs i
  unfolding kept_folders
  kept id i d = rw (parent_of-filter (λ j. not (is_descendant fs j id)) fs i, d) refl

  gone :
      (id i : ℕ) (o : Option ℕ)
      → is_descendant fs i id ≡ true
      → ¬ (parent_of (kept_folders id fs fs) i ≡ some o)
  unfolding kept_folders
  gone id i o d e =
      absurd (
        none_some (sym (rw (parent_of-filter (λ j. not (is_descendant fs j id)) fs i, d) refl) ∙ e))
    where
      none_some : ¬ (◌≡◌ {A = Option (Option ℕ)} none (some o))
      none_some h = cc

  -- Without a folder and its descendants.
  pub Forest-filter : (id : ℕ) → Forest (kept_folders id fs fs)
  unfolding Forest
  Forest-filter id i o e = elim (Bool-cases (is_descendant fs i id)) [
    | inl d ↦ absurd (gone id i o d e)
    | inr d ↦
        let (w, k) = forest i o (sym (kept id i d) ∙ e) in
        (
          w,
          Walk-same fs (kept_folders id fs fs) k (λ j c.
              let (v, l, b, sub) = Walk-from fs j k c in
              survives id l
                (not_in v id (λ h. absurd (false≢true (sym (outside id k d) ∙ sub id h))))),
        )
  ]

  module _ (g : Folder → Folder) (id : ℕ) (o : Option ℕ) (same_id : (f : Folder) → (g f).id ≡ f.id)
      (sets : (f : Folder) → (g f).parent_id ≡ o) where
    elsewhere : (i : ℕ) → (id == i) ≡ false → parent_of (change_row g id fs) i ≡ parent_of fs i
    elsewhere i n = rw (parent_of-change g o id fs i same_id sets, n) refl

    -- Each walk goes on as it did until it meets the folder that moved.
    Rooted-moved :
        Rooted (change_row g id fs) id
        → {i : ℕ} {w : List ℕ} → Walk fs i w
        → Rooted (change_row g id fs) i
    Rooted-moved there {i} (ends e) = elim (Bool-cases (id == i)) [
      | inl t ↦ subst (λ n. Rooted (change_row g id fs) n) ((nat_beq_iff id i).0 t) there
      | inr n ↦ (i ∷ [], ends (elsewhere i n ∙ e))
    ]
    Rooted-moved there {i} (climbs {p = p} e k) = elim (Bool-cases (id == i)) [
      | inl t ↦ subst (λ n. Rooted (change_row g id fs) n) ((nat_beq_iff id i).0 t) there
      | inr n ↦ let (w, l) = Rooted-moved there k in (i ∷ w, climbs (elsewhere i n ∙ e) l)
    ]

    -- The parent that a folder was given.
    given : (d : Option ℕ) → parent_of fs id ≡ some d → parent_of (change_row g id fs) id ≡ some o
    given d e = rw (parent_of-change g o id fs id same_id sets, e) (itself id (some o) (some d))

    placed :
        contains (ids fs) id ≡ true
        → (o ≡ none)
          ⊎ ((t : ℕ) × (o ≡ some t) × contains (ids fs) t ≡ true × is_descendant fs t id ≡ false)
        → Rooted (change_row g id fs) id
    placed there (inl n) = (
      id ∷ [],
      ends (given (parent_of-known fs id there).0 (parent_of-known fs id there).1 ∙ ap some n),
    )
    placed there (inr (t, q, h, d)) =
        let (w, k) = known_Rooted t h in
        (
          id ∷ w,
          climbs (given (parent_of-known fs id there).0 (parent_of-known fs id there).1 ∙ ap some q)
              (Walk-same fs (change_row g id fs) k
                (λ j c. elsewhere j (unlike w id j (outside id k d) c))),
        )

    -- Under a folder that is no descendant.
    pub Forest-moved :
        contains (ids fs) id ≡ true
        → (o ≡ none)
          ⊎ ((t : ℕ) × (o ≡ some t) × contains (ids fs) t ≡ true × is_descendant fs t id ≡ false)
        → Forest (change_row g id fs)
    unfolding Forest
    Forest-moved there free i d e = elim (Bool-cases (id == i)) [
      | inl t ↦
          subst (λ n. Rooted (change_row g id fs) n) ((nat_beq_iff id i).0 t) (placed there free)
      | inr n ↦
          let (w, k) = forest i d (sym (elsewhere i n) ∙ e) in Rooted-moved (placed there free) k
    ]
