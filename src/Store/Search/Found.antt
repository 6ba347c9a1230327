-- ===== src/Store/Search/Found.antt =====
-- What the search box finds: the LIKE of `list` in crates/core-store/src/hosts.rs.
use tern.Prelude.{
  ◌≡◌, refl, sym, ap, ap₂, ◌∙◌, ◌↔◌, Bool, true, false, false≢true, ◌||◌, [], ◌∷◌, ◌++◌, Text, map,
  nat_beq, nat_beq_iff, to_ascii_lowercase, arith, Bool-cases, inl, inr,
}
use tern.Store.Search.{
  any_run, literal, like_pieces, fold, at_some_suffix, like_from, like, escape_like,
}

-- `part` stands in the text behind `before`, but for the case of its ASCII letters.
pub record Within (part s : Text) : Type 0 where
  pub before : Text
  pub found : Text
  pub after : Text
  pub whole : s ≡ before ++ (found ++ after)
  pub alike : to_ascii_lowercase found ≡ to_ascii_lowercase part

like_pieces-escape_like :
    (q r : Text) → like_pieces false (escape_like q ++ r) ≡ map literal q ++ like_pieces false r
unfolding like_pieces escape_like
like_pieces-escape_like [] r = refl
like_pieces-escape_like (c ∷ q) r =
    let ih : like_pieces false (escape_like q ++ r) ≡ map literal q ++ like_pieces false r =
      like_pieces-escape_like q r in
    elim (Bool-cases (nat_beq c b'%' || nat_beq c b'_' || nat_beq c 92)) [
      | inl t ↦ rw t (ap (λ ps. literal c ∷ ps) ih)
      | inr f ↦ rw f (ground arith)
    ]

at_some_suffix_sound :
    (f : Text → Bool) (s : Text)
    → at_some_suffix f s ≡ true
    → (a t : Text) × (s ≡ a ++ t) × (f t ≡ true)
unfolding at_some_suffix
at_some_suffix_sound f [] h = ([], [], refl, h)
at_some_suffix_sound f (c ∷ s) h = elim (Bool-cases (f (c ∷ s))) [
  | inl t ↦ ([], c ∷ s, refl, t)
  | inr n ↦
      let (a, t, e, g) = at_some_suffix_sound f s (ground arith) in (c ∷ a, t, ap (λ x. c ∷ x) e, g)
]

at_some_suffix_complete :
    (f : Text → Bool) (a t : Text) → f t ≡ true → at_some_suffix f (a ++ t) ≡ true
unfolding at_some_suffix
at_some_suffix_complete f [] [] h = h
at_some_suffix_complete f [] (c ∷ t) h = ground arith
at_some_suffix_complete f (c ∷ a) t h =
    let ih : at_some_suffix f (a ++ t) ≡ true = at_some_suffix_complete f a t h in ground arith

any_rest : (s : Text) → at_some_suffix (like_from []) s ≡ true
unfolding at_some_suffix like_from
any_rest [] = refl
any_rest (c ∷ s) = any_rest s

literals_sound :
    (q s : Text)
    → like_from (map literal q ++ any_run ∷ []) s ≡ true
    → (b c : Text) × (s ≡ b ++ c) × (to_ascii_lowercase b ≡ to_ascii_lowercase q)
unfolding like_from to_ascii_lowercase
literals_sound [] s h = ([], s, refl, refl)
literals_sound (d ∷ q) [] h = absurd (false≢true h)
literals_sound (d ∷ q) (x ∷ s) h =
    let (b, c, e, l) = literals_sound q s (ground arith) in
    let f : fold x ≡ fold d = (nat_beq_iff (fold x) (fold d)).0 (ground arith) in
    (x ∷ b, c, ap (λ t. x ∷ t) e, ap₂ (λ y t. y ∷ t) f l)

literals_complete :
    (q b c : Text)
    → to_ascii_lowercase b ≡ to_ascii_lowercase q
    → like_from (map literal q ++ any_run ∷ []) (b ++ c) ≡ true
unfolding like_from to_ascii_lowercase
literals_complete [] [] c l = any_rest c
literals_complete [] (x ∷ b) c l = cc
literals_complete (d ∷ q) [] c l = cc
literals_complete (d ∷ q) (x ∷ b) c l =
    let ih : like_from (map literal q ++ any_run ∷ []) (b ++ c) ≡ true =
      literals_complete q b c cc in
    let f : nat_beq (fold x) (fold d) ≡ true = (nat_beq_iff (fold x) (fold d)).1 cc in ground arith

pattern_pieces :
    (q : Text)
    → like_pieces false (b'%' ∷ escape_like q ++ b'%' ∷ [])
      ≡ any_run ∷ map literal q ++ any_run ∷ []
unfolding like_pieces
pattern_pieces q = ap (λ ps. any_run ∷ ps) (like_pieces-escape_like q (b'%' ∷ []))

-- A value matches the pattern made of a search text, its `%`, `_` and `\` escaped, exactly when the text as it was typed stands somewhere in the value, but for the case of ASCII letters.
pub like-escape_like :
    (s q : Text) → (like s (b'%' ∷ escape_like q ++ b'%' ∷ []) ≡ true) ↔ Within q s
unfolding like like_from
like-escape_like s q = (to, from)
  where
    to : like s (b'%' ∷ escape_like q ++ b'%' ∷ []) ≡ true → Within q s
    to h =
        let (a, t, e, g) =
          at_some_suffix_sound (like_from (map literal q ++ any_run ∷ [])) s
            (ap (λ ps. like_from ps s) (sym (pattern_pieces q)) ∙ h) in
        let (b, c, k, l) = literals_sound q t g in
        record { before = a; found = b; after = c; whole = e ∙ ap (λ x. a ++ x) k; alike = l }

    from : Within q s → like s (b'%' ∷ escape_like q ++ b'%' ∷ []) ≡ true
    from w =
        ap (λ ps. like_from ps s) (pattern_pieces q)
        ∙ ap (at_some_suffix (like_from (map literal q ++ any_run ∷ []))) w.whole
        ∙ at_some_suffix_complete (like_from (map literal q ++ any_run ∷ [])) w.before
            (w.found ++ w.after) (literals_complete q w.found w.after w.alike)
