-- ===== src/SshConfig/Parse/Resolved.antt =====
-- What applies to one host: `ParsedConfig::resolve` and `aliases`.
use tern.Prelude.{
  list_beq, subst, any, arith, ◌++◌, contains, not, ◌&&◌, ◌||◌, nat_eq, list_eq, contains-snoc,
  Distinct, Distinct-snoc, list_beq_iff, ◌≡◌, refl, Bool, true, false, Option, none, some, List, [],
  ◌∷◌, Text, inl, inr, Bool-cases, filter, ap, sym, ◌∙◌,
}
use tern.SshConfig.Parse.{
  add_patterns, add_stanzas, aliases, is_wildcard, Stanza, ParsedConfig, only_patterns, or_else,
  matches, inherit_from, resolve_in, resolve,
}

-- The first value that a list of stanzas has.
abbrev pub first_value {ℓ} : {A : Type ℓ} → (Stanza → Option A) → List Stanza → Option A
first_value f [] = none
first_value f (st ∷ sts) = or_else (f st) (first_value f sts)

-- `st` has in each field the first value of `sts`.
abbrev pub FirstValues : List Stanza → Stanza → Type 0
FirstValues sts st =
    (st.hostname ≡ first_value (λ s. s.hostname) sts)
    × (st.port ≡ first_value (λ s. s.port) sts)
    × (st.user ≡ first_value (λ s. s.user) sts)
    × (st.identity_file ≡ first_value (λ s. s.identity_file) sts)
    × (st.proxy_jump ≡ first_value (λ s. s.proxy_jump) sts)
    × (st.server_alive_interval ≡ first_value (λ s. s.server_alive_interval) sts)
    × (st.connect_timeout ≡ first_value (λ s. s.connect_timeout) sts)
    × (st.forward_agent ≡ first_value (λ s. s.forward_agent) sts)

or_else_assoc {ℓ} :
    {A : Type ℓ} (a b c : Option A) → or_else (or_else a b) c ≡ or_else a (or_else b c)
or_else_assoc none b c = refl
or_else_assoc (some x) b c = refl

or_else-none {ℓ} : {A : Type ℓ} (a : Option A) → or_else a none ≡ a
or_else-none none = refl
or_else-none (some x) = refl

-- A field of `resolve_in`, for each field that `inherit_from` treats alike.
resolve_in-field {ℓ} :
    {A : Type ℓ} (f : Stanza → Option A) (name : Text)
    → ((a b : Stanza) → f (inherit_from a b) ≡ or_else (f a) (f b))
    → (st : Stanza) (sts : List Stanza)
    → f (resolve_in st sts name) ≡ or_else (f st) (first_value f (filter (λ s. matches s name) sts))
unfolding resolve_in
resolve_in-field f name h st [] = sym (or_else-none (f st))
resolve_in-field f name h st (s ∷ sts) = elim (Bool-cases (matches s name)) [
  | inl e ↦
      rw (e, resolve_in)
        (resolve_in-field f name h (inherit_from st s) sts
          ∙ (ap (λ o. or_else o (first_value f (filter (λ x. matches x name) sts))) (h st s)
              ∙ or_else_assoc (f st) (f s) (first_value f (filter (λ x. matches x name) sts))))
  | inr e ↦ rw (e, resolve_in) (resolve_in-field f name h st sts)
]

-- A host gets in each of its eight settings the value of the first stanza, in file order, that
-- applies to it and has that setting, and none if no such stanza has it.
pub resolve-FirstValues :
    (cfg : ParsedConfig) (name : Text)
    → FirstValues (filter (λ st. matches st name) cfg.stanzas) (resolve cfg name)
unfolding resolve inherit_from
resolve-FirstValues cfg name =
    let from = only_patterns (name ∷ []) in
    (
      resolve_in-field (λ s. s.hostname) name (λ a b. refl) from cfg.stanzas,
      resolve_in-field (λ s. s.port) name (λ a b. refl) from cfg.stanzas,
      resolve_in-field (λ s. s.user) name (λ a b. refl) from cfg.stanzas,
      resolve_in-field (λ s. s.identity_file) name (λ a b. refl) from cfg.stanzas,
      resolve_in-field (λ s. s.proxy_jump) name (λ a b. refl) from cfg.stanzas,
      resolve_in-field (λ s. s.server_alive_interval) name (λ a b. refl) from cfg.stanzas,
      resolve_in-field (λ s. s.connect_timeout) name (λ a b. refl) from cfg.stanzas,
      resolve_in-field (λ s. s.forward_agent) name (λ a b. refl) from cfg.stanzas,
    )

-- The names that one stanza adds, by the kind of its first pattern.
module _ (out : List Text) (p : Text) (ps : List Text) where
  add_patterns-skip :
      (is_wildcard p || contains out p) ≡ true → add_patterns out (p ∷ ps) ≡ add_patterns out ps
  unfolding add_patterns
  add_patterns-skip h = ground arith

  add_patterns-take :
      (is_wildcard p || contains out p) ≡ false
      → add_patterns out (p ∷ ps) ≡ add_patterns (out ++ p ∷ []) ps
  unfolding add_patterns
  add_patterns-take h = ground arith

abbrev is_concrete_in : List Text → Text → Bool
is_concrete_in ps a = contains ps a && not (is_wildcard a)

is_concrete_in-skip :
    (out : List Text) (p : Text) (ps : List Text) (a : Text)
    → (is_wildcard p || contains out p) ≡ true
    → (contains out a || is_concrete_in ps a) ≡ (contains out a || is_concrete_in (p ∷ ps) a)
is_concrete_in-skip out p ps a h = elim (Bool-cases (list_beq p a)) [
  | inl e ↦
      let taken : (is_wildcard a || contains out a) ≡ true =
        subst (λ x. (is_wildcard x || contains out x) ≡ true) ((list_beq_iff p a).0 e) h in
      ground arith
  | inr e ↦ rw e refl
]

is_concrete_in-take :
    (out : List Text) (p : Text) (ps : List Text) (a : Text)
    → (is_wildcard p || contains out p) ≡ false
    → (contains (out ++ p ∷ []) a || is_concrete_in ps a)
      ≡ (contains out a || is_concrete_in (p ∷ ps) a)
is_concrete_in-take out p ps a h = elim (Bool-cases (list_beq p a)) [
  | inl e ↦
      let new : (is_wildcard a || contains out a) ≡ false =
        subst (λ x. (is_wildcard x || contains out x) ≡ false) ((list_beq_iff p a).0 e) h in
      rw (contains-snoc out p a, e) (ground arith)
  | inr e ↦ rw (contains-snoc out p a, e) (ground arith)
]

add_patterns-contains :
    (out ps : List Text) (a : Text)
    → contains (add_patterns out ps) a ≡ (contains out a || is_concrete_in ps a)
unfolding add_patterns
add_patterns-contains out [] a = ground arith
add_patterns-contains out (p ∷ ps) a = elim (Bool-cases (is_wildcard p || contains out p)) [
  | inl h ↦
      rw (add_patterns-skip out p ps h)
        (add_patterns-contains out ps a ∙ is_concrete_in-skip out p ps a h)
  | inr h ↦
      rw (add_patterns-take out p ps h)
        (add_patterns-contains (out ++ p ∷ []) ps a ∙ is_concrete_in-take out p ps a h)
]

add_patterns-Distinct : (out ps : List Text) → Distinct out → Distinct (add_patterns out ps)
unfolding add_patterns
add_patterns-Distinct out [] d = d
add_patterns-Distinct out (p ∷ ps) d = elim (Bool-cases (is_wildcard p || contains out p)) [
  | inl h ↦ rw (add_patterns-skip out p ps h) (add_patterns-Distinct out ps d)
  | inr h ↦
      rw (add_patterns-take out p ps h)
        (add_patterns-Distinct (out ++ p ∷ []) ps (Distinct-snoc out p d (ground arith)))
]

-- Does a stanza name the host itself, not by a wildcard?
abbrev pub names : Text → Stanza → Bool
names a st = is_concrete_in st.patterns a

add_stanzas-contains :
    (out : List Text) (sts : List Stanza) (a : Text)
    → contains (add_stanzas out sts) a ≡ (contains out a || any (names a) sts)
unfolding add_stanzas
add_stanzas-contains out [] a = ground arith
add_stanzas-contains out (st ∷ sts) a =
    add_stanzas-contains (add_patterns out st.patterns) sts a
    ∙ rw (add_patterns-contains out st.patterns a) (ground arith)

add_stanzas-Distinct :
    (out : List Text) (sts : List Stanza) → Distinct out → Distinct (add_stanzas out sts)
unfolding add_stanzas
add_stanzas-Distinct out [] d = d
add_stanzas-Distinct out (st ∷ sts) d =
    add_stanzas-Distinct (add_patterns out st.patterns) sts
      (add_patterns-Distinct out st.patterns d)

-- The importable aliases are, each once, the names that stand without `!`, `*` and `?` in a stanza.
pub aliases_exact :
    (cfg : ParsedConfig)
    → Distinct (aliases cfg) × ((a : Text) → contains (aliases cfg) a ≡ any (names a) cfg.stanzas)
unfolding aliases
aliases_exact cfg =
    (add_stanzas-Distinct [] cfg.stanzas tt, λ a. add_stanzas-contains [] cfg.stanzas a)
