-- ===== src/Login/Fallbacks.antt =====
-- The stored form of a chain of fallbacks: crates/core-store/src/model.rs.
use tern.Prelude.{
  ℕ, ◌≡◌, refl, ap, ◌∙◌, Bool, true, false, Option, none, some, List, [], ◌∷◌, ◌++◌, Text, codes,
  map, filter_map, join, split, trim, ◌==◌, list_eq, nat_eq, if◌then◌else◌, Result, ok, err,
}
use tern.Store.{AuthKind, agent_kind, key_file_kind, password_kind}

-- `AuthKind::as_str`
unfoldable pub as_str : AuthKind → Text
as_str agent_kind = codes "agent"
as_str key_file_kind = codes "key_file"
as_str password_kind = codes "password"

-- `AuthKind::try_from(..).ok()`
unfoldable pub kind_of : Text → Option AuthKind
kind_of value =
    if value == codes "agent"
    then some agent_kind
    else if value == codes "key_file"
    then some key_file_kind
    else if value == codes "password"
    then some password_kind
    else none

unfoldable pub encode_auth_fallbacks : List AuthKind → Option Text
unfolding as_str
encode_auth_fallbacks [] = none
encode_auth_fallbacks (k ∷ kinds) = some (join (codes ",") (map as_str (k ∷ kinds)))

abbrev or_empty : Option Text → Text
or_empty none = []
or_empty (some t) = t

unfoldable pub decode_auth_fallbacks : Option Text → List AuthKind
unfolding kind_of
decode_auth_fallbacks raw = filter_map (λ s. kind_of (trim s)) (split b',' (or_empty raw))

-- One name in front of a comma, or at the end.
split-kind_last : (k : AuthKind) → split b',' (as_str k) ≡ as_str k ∷ []
unfolding as_str split
split-kind_last agent_kind = refl
split-kind_last key_file_kind = refl
split-kind_last password_kind = refl

split-kind :
    (k : AuthKind) (rest : Text)
    → split b',' (as_str k ++ (b',' ∷ rest)) ≡ as_str k ∷ split b',' rest
unfolding as_str split
split-kind agent_kind rest = refl
split-kind key_file_kind rest = refl
split-kind password_kind rest = refl

split-join :
    (k : AuthKind) (kinds : List AuthKind)
    → split b',' (join (codes ",") (map as_str (k ∷ kinds))) ≡ map as_str (k ∷ kinds)
unfolding join
split-join k [] = split-kind_last k
split-join k (j ∷ kinds) =
    split-kind k (join (codes ",") (map as_str (j ∷ kinds)))
    ∙ ap (λ r. as_str k ∷ r) (split-join j kinds)

kind_of-as_str : (k : AuthKind) → kind_of (trim (as_str k)) ≡ some k
unfolding kind_of as_str trim tern.Prelude.is_whitespace
kind_of-as_str agent_kind = refl
kind_of-as_str key_file_kind = refl
kind_of-as_str password_kind = refl

filter_map-some :
    {A B : Type 0} (f : A → Option B) (x : A) (xs : List A) (y : B)
    → f x ≡ some y
    → filter_map f (x ∷ xs) ≡ y ∷ filter_map f xs
filter_map-some f x xs y e = rw (e, filter_map) refl

kinds_of-as_str :
    (kinds : List AuthKind) → filter_map (λ s. kind_of (trim s)) (map as_str kinds) ≡ kinds
kinds_of-as_str [] = refl
kinds_of-as_str (k ∷ kinds) =
    filter_map-some (λ s. kind_of (trim s)) (as_str k) (map as_str kinds) k (kind_of-as_str k)
    ∙ ap (λ r. k ∷ r) (kinds_of-as_str kinds)

-- A chain of fallbacks that is stored is read back as it was, its order and repetitions included.
pub decode-encode_auth_fallbacks :
    (kinds : List AuthKind) → decode_auth_fallbacks (encode_auth_fallbacks kinds) ≡ kinds
unfolding decode_auth_fallbacks encode_auth_fallbacks split trim
decode-encode_auth_fallbacks [] = refl
decode-encode_auth_fallbacks (k ∷ kinds) =
    ap (filter_map (λ s. kind_of (trim s))) (split-join k kinds) ∙ kinds_of-as_str (k ∷ kinds)
