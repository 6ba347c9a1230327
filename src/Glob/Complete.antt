-- ===== src/Glob/Complete.antt =====
-- What matches is accepted, unless the text itself holds a `*`.
use tern.Prelude.{
  ℕ, zero, suc, ◌+◌, ◌≤◌, ◌≡◌, ◌≢◌, inl, inr, refl, true, false, Option, none, some, Text, [], ◌∷◌,
  drop, drop-get_elem, drop-none, get_elem?, get_elem?-lt, get_elem?-none, arith, le_refl,
  false≢true, sym, ◌∙◌, Option-cases, subst, All, some-injective, Bool,
}
use tern.Glob.{Cursor, star_char, scan, start, enough, go_on, at_end, glob_match}
use tern.Glob.Moves.{Fits, Stuck, Move, took, opened, backed, failed, round-Move}
use tern.Glob.Total.{scan_total}
use tern.Glob.Matches.{
  Matches, Accepts, skip, one_inv, end_inv, must_take, two_stars, drop_one, Matches→stars,
}

-- No character of the text is `*`.
abbrev pub StarFree : Text → Type 0
StarFree v = All (λ c. c ≢ star_char) v

get_elem?-StarFree : (v : Text) (i c : ℕ) → StarFree v → get_elem? v i ≡ some c → c ≢ star_char
get_elem?-StarFree [] i c h e = cc
get_elem?-StarFree (x ∷ v) zero c h e = λ q. h.0 (ground arith)
get_elem?-StarFree (x ∷ v) (suc i) c h e = get_elem?-StarFree v i c h.1 e

-- A fit with a character that is no star is no star.
Fits-ne_star : {a c : ℕ} → Fits a c → c ≢ star_char → a ≢ star_char
Fits-ne_star fits n = ground arith

no_empty : {c : ℕ} {t : Text} → ¬ Matches [] (c ∷ t)
no_empty d = elim d [ ]

-- An empty pattern matches no character.
end_no : {p s t : Text} {c : ℕ} → p ≡ [] → s ≡ c ∷ t → ¬ Matches p s
end_no {t = t} {c = c} e f d = no_empty (subst (λ q. Matches q (c ∷ t)) e (subst (Matches _) f d))

module _ (p v : Text) where
  -- The text from `j` on matches the pattern from `i` on.
  abbrev From : ℕ → ℕ → Type 0
  From i j = Matches (drop i p) (drop j v)

  -- Where the question stands, if the whole text matches.
  abbrev Saved : Cursor → Option ℕ → Type 0
  Saved k none = From k.pi k.vi
  Saved k (some s) =
      (get_elem? p s ≡ some star_char)
      × From s k.resume
      × (From (s + 1) k.resume → From k.pi k.vi)
      × (k.resume ≤ k.vi)

  record Open (k : Cursor) : Type 0 where
    later : Matches (star_char ∷ drop k.pi p) (drop k.vi v)
    saved : Saved k k.star

  take_one :
      (i j a c : ℕ)
      → get_elem? p i ≡ some a
      → get_elem? v j ≡ some c
      → a ≢ star_char
      → From i j
      → Accepts a c × From (i + 1) (j + 1)
  take_one i j a c e ev n d =
      one_inv n (rw (drop-get_elem j v c ev) at (rw (drop-get_elem i p a e) at d))

  -- At a stuck cursor what is left does not match.
  Stuck-no : (k : Cursor) (c : ℕ) → get_elem? v k.vi ≡ some c → Stuck p k.pi c → ¬ From k.pi k.vi
  Stuck-no k c ev n d = elim (Option-cases (get_elem? p k.pi)) [
    | inl e ↦ end_no (drop-none k.pi p e) (drop-get_elem k.vi v c ev) d
    | inr (a, e) ↦ (n a e).1 (take_one k.pi k.vi a c e ev (n a e).0 d).0.1
  ]

  Saved-took :
      (k : Cursor) (a c : ℕ) (o : Option ℕ)
      → get_elem? p k.pi ≡ some a
      → get_elem? v k.vi ≡ some c
      → a ≢ star_char
      → Saved k o
      → Saved (record k { pi = k.pi + 1; vi = k.vi + 1 }) o
  Saved-took k a c none e ev n h = (take_one k.pi k.vi a c e ev n h).1
  Saved-took k a c (some s) e ev n (at_star, d, down, le) =
      (at_star, d, λ x. (take_one k.pi k.vi a c e ev n (down x)).1, omega arith)

  -- The saved star has to take a character.
  resume_at :
      (s r x : ℕ)
      → get_elem? p s ≡ some star_char
      → get_elem? v r ≡ some x
      → From s r
      → ¬ From (s + 1) r
      → From s (r + 1)
  resume_at s r x e ex d n = rw (drop-get_elem s p star_char e) (
      must_take refl (rw (drop-get_elem r v x ex) at (rw (drop-get_elem s p star_char e) at d))
        (rw (drop-get_elem r v x ex) at n))

  took-Open :
      (k : Cursor) (a c : ℕ)
      → get_elem? p k.pi ≡ some a
      → get_elem? v k.vi ≡ some c
      → a ≢ star_char
      → Open k
      → Open (record k { pi = k.pi + 1; vi = k.vi + 1 })
  took-Open k a c e ev n o = record {
    later =
        drop_one (drop (k.vi + 1) v) refl n
          (rw (drop-get_elem k.vi v c ev) at (rw (drop-get_elem k.pi p a e) at o.later));
    saved = Saved-took k a c k.star e ev n o.saved;
  }

  opened-Open :
      (k : Cursor)
      → get_elem? p k.pi ≡ some star_char
      → Open k
      → Open (record k { pi = k.pi + 1; star = some k.pi; resume = k.vi })
  opened-Open k e o =
      let d : Matches (star_char ∷ drop (k.pi + 1) p) (drop k.vi v) =
        two_stars refl refl (rw (drop-get_elem k.pi p star_char e) at o.later) in
      record {
        later = d;
        saved = (e, rw (drop-get_elem k.pi p star_char e) d, λ y. y, le_refl k.vi);
      }

  backed-Open :
      (k : Cursor) (c s : ℕ)
      → get_elem? v k.vi ≡ some c
      → Stuck p k.pi c
      → Saved k (some s)
      → Open (record { pi = s + 1; vi = k.resume + 1; star = some s; resume = k.resume + 1 })
  backed-Open k c s ev n (e, d, down, le) = elim (Option-cases (get_elem? v k.resume)) [
    | inl out ↦ absurd (omega (arith, get_elem?-lt v k.vi c ev, get_elem?-none v k.resume out))
    | inr (x, at_x) ↦
        let more : From s (k.resume + 1) =
          resume_at s k.resume x e at_x d (λ y. Stuck-no k c ev n (down y)) in
        record {
          later = rw (drop-get_elem s p star_char e) at more;
          saved = (e, more, λ y. y, le_refl _);
        }
  ]

  go_on_complete :
      (f : ℕ) (k : Cursor) (c : ℕ) {r : Option Cursor}
      → StarFree v
      → ((k' : Cursor) → Open k' → scan f p v k' ≢ some false)
      → Open k
      → get_elem? v k.vi ≡ some c
      → Move p k c r
      → go_on (scan f p v) r ≢ some false
  go_on_complete f k c free ih o ev (took a e fits) =
      ih _ (took-Open k a c e ev (Fits-ne_star fits (get_elem?-StarFree v k.vi c free ev)) o)
  go_on_complete f k c free ih o ev (opened e) = ih _ (opened-Open k e o)
  go_on_complete f k c free ih o ev (backed s e n) =
      ih _ (backed-Open k c s ev n (subst (Saved k) e o.saved))
  go_on_complete f k c free ih o ev (failed e n) =
      absurd (Stuck-no k c ev n (subst (Saved k) e o.saved))

  scan_complete : (f : ℕ) (k : Cursor) → StarFree v → Open k → ¬ (scan f p v k ≡ some false)
  unfolding scan at_end
  scan_complete zero k free o = λ h. cc
  scan_complete (suc f) k free o = elim (Option-cases (get_elem? v k.vi)) [
    | inl e ↦
        rw (e, scan)
          (λ h. false≢true (
            sym (some-injective _ _ h)
            ∙ Matches→stars (end_inv (rw (drop-none k.vi v e) at o.later)).1))
    | inr (c, e) ↦
        rw (e, scan)
          (go_on_complete f k c free (λ k' o'. scan_complete f k' free o') o e (round-Move p k c))
  ]

-- A text without `*` that matches the pattern is accepted.
pub glob_match_complete : (p v : Text) → StarFree v → Matches p v → glob_match p v ≡ true
unfolding glob_match
glob_match_complete p v free d = answer (scan_total p v)
  where
    answer :
        (b : Bool) × (scan (enough p v) p v start ≡ some b)
        → elim (scan (enough p v) p v start) as (λ _. Bool) [ some b ↦ b | none ↦ false ] ≡ true
    answer (true, e) = rw e
    answer (false, e) =
        absurd
          (scan_complete p v (enough p v) start free (record { later = skip refl d; saved = d }) e)
