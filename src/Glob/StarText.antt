-- ===== src/Glob/StarText.antt =====
-- A text that itself holds a `*`: the loop tests `p[pi] == v[vi]` before `p[pi] == '*'`.
use tern.Prelude.{ℕ, zero, suc, ◌≡◌, refl, false, some, Text, [], ◌∷◌, Bool, some-injective, sym}
use tern.Glob.{star_char, scan, start, enough, glob_match}
use tern.Glob.Total.{scan_total}
use tern.Glob.Matches.{Matches, empty, skip, grow}

abbrev star_only : Text
star_only = star_char ∷ []

scan-star_text :
    (f c : ℕ) (v : Text) (b : Bool)
    → scan f star_only (star_char ∷ c ∷ v) start ≡ some b
    → b ≡ false
unfolding scan
scan-star_text zero c v b h = cc
scan-star_text (suc zero) c v b h = cc
scan-star_text (suc (suc f)) c v b h = sym (some-injective _ _ h)

-- The pattern `*` matches every text in the relation, a star may take each character.
pub star-Matches : (v : Text) → Matches star_only v
star-Matches [] = skip refl empty
star-Matches (c ∷ v) = grow refl (star-Matches v)

-- `glob_match` refuses each text of two or more characters that begins with `*` for the pattern
-- `*`, although the pattern matches it.
pub glob_match-star_text :
    (c : ℕ) (v : Text)
    → (glob_match star_only (star_char ∷ c ∷ v) ≡ false) × Matches star_only (star_char ∷ c ∷ v)
unfolding glob_match
glob_match-star_text c v = (answer (scan_total star_only (star_char ∷ c ∷ v)), star-Matches _)
  where
    answer :
        (b : Bool) × (scan
              (enough star_only (star_char ∷ c ∷ v))
              star_only
              (star_char ∷ c ∷ v)
              start
            ≡ some b)
        → glob_match star_only (star_char ∷ c ∷ v) ≡ false
    answer (b, e) =
        rw (e, glob_match) (scan-star_text (enough star_only (star_char ∷ c ∷ v)) c v b e)
