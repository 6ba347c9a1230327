-- ===== src/Glob/Patterns.antt =====
-- A list of host patterns, some negated by a leading `!`, as `Stanza::matches` and
-- `patterns_match` walk it.
use tern.Prelude.{
  ◌||◌, ◌≡◌, ◌↔◌, ◌⊎◌, inl, inr, Bool, true, false, none, some, List, [], ◌∷◌, Text, strip_char,
  arith, All, Exists, Option-cases, if◌then◌else◌,
}

-- `hit` is the test of one pattern, and `matched` the flag of the loop.
unfoldable pub pattern_list : (Text → Bool) → Bool → List Text → Bool
pattern_list hit matched [] = matched
pattern_list hit matched (p ∷ ps) = elim (strip_char b'!' p) [
  | some negated ↦ elim (hit negated) [ true ↦ false | false ↦ pattern_list hit matched ps ]
  | none ↦ elim (hit p) [ true ↦ pattern_list hit true ps | false ↦ pattern_list hit matched ps ]
]

-- A pattern without `!` that fits.
abbrev pub Positive : (Text → Bool) → Text → Type 0
Positive hit p = (strip_char b'!' p ≡ none) × (hit p ≡ true)

-- A pattern that is no negation of a fit.
abbrev pub Allows : (Text → Bool) → Text → Type 0
Allows hit p = (negated : Text) → strip_char b'!' p ≡ some negated → hit negated ≡ false

module _ (hit : Text → Bool) where
  -- One pattern of the walk, by the kind of the pattern.
  pattern_list-plain :
      (matched : Bool) (p : Text) (ps : List Text)
      → strip_char b'!' p ≡ none
      → pattern_list hit matched (p ∷ ps) ≡ pattern_list hit (hit p || matched) ps
  unfolding pattern_list
  pattern_list-plain matched p ps e = ground arith

  pattern_list-negated :
      (matched : Bool) (p n : Text) (ps : List Text)
      → strip_char b'!' p ≡ some n
      → pattern_list hit matched (p ∷ ps) ≡ (if hit n then false else pattern_list hit matched ps)
  unfolding pattern_list
  pattern_list-negated matched p n ps e = ground arith

  pattern_list_sound :
      (matched : Bool) (ps : List Text)
      → pattern_list hit matched ps ≡ true
      → ((matched ≡ true) ⊎ Exists (Positive hit) ps) × All (Allows hit) ps
  unfolding pattern_list
  pattern_list_sound matched [] h = (inl h, tt)
  pattern_list_sound matched (p ∷ ps) h = elim (Option-cases (strip_char b'!' p)) [
    | inl e ↦
        let (some_fit, allowed) =
          pattern_list_sound (hit p || matched) ps (rw (pattern_list-plain matched p ps e) at h) in
        (widen e some_fit, (λ n q. cc, allowed))
    | inr (n, e) ↦
        let h' : (if hit n then false else pattern_list hit matched ps) ≡ true =
          rw (pattern_list-negated matched p n ps e) at h in
        ground (arith, pattern_list_sound matched ps)
  ]
    where
      widen :
          strip_char b'!' p ≡ none
          → ((hit p || matched) ≡ true) ⊎ Exists (Positive hit) ps
          → (matched ≡ true) ⊎ (Positive hit p ⊎ Exists (Positive hit) ps)
      widen e (inl t) = ground arith
      widen e (inr x) = inr (inr x)

  pattern_list_complete :
      (matched : Bool) (ps : List Text)
      → (matched ≡ true) ⊎ Exists (Positive hit) ps
      → All (Allows hit) ps
      → pattern_list hit matched ps ≡ true
  unfolding pattern_list
  pattern_list_complete matched [] (inl h) a = h
  pattern_list_complete matched [] (inr x) a = absurd x
  pattern_list_complete matched (p ∷ ps) h (a, rest) = elim (Option-cases (strip_char b'!' p)) [
    | inl e ↦
        rw (pattern_list-plain matched p ps e)
          (pattern_list_complete (hit p || matched) ps (narrow h) rest)
    | inr (n, e) ↦
        rw (pattern_list-negated matched p n ps e, a n e)
          (pattern_list_complete matched ps (drop_negated e h) rest)
  ]
    where
      narrow :
          (matched ≡ true) ⊎ (Positive hit p ⊎ Exists (Positive hit) ps)
          → ((hit p || matched) ≡ true) ⊎ Exists (Positive hit) ps
      narrow (inl t) = ground arith
      narrow (inr (inl (_, t))) = ground arith
      narrow (inr (inr x)) = inr x

      drop_negated :
          {n : Text}
          → strip_char b'!' p ≡ some n
          → (matched ≡ true) ⊎ (Positive hit p ⊎ Exists (Positive hit) ps)
          → (matched ≡ true) ⊎ Exists (Positive hit) ps
      drop_negated e (inl t) = inl t
      drop_negated e (inr (inl (t, _))) = cc
      drop_negated e (inr (inr x)) = inr x

  -- A list of patterns names a host exactly if one of its patterns without `!` fits and none of its
  -- negated patterns does, whatever their order.
  pub pattern_list_iff :
      (ps : List Text)
      → (pattern_list hit false ps ≡ true) ↔ (Exists (Positive hit) ps × All (Allows hit) ps)
  pattern_list_iff ps = (
    λ h. let (e, a) = pattern_list_sound false ps h in (found e, a),
    λ (e, a). pattern_list_complete false ps (inr e) a,
  )
    where
      found : (false ≡ true) ⊎ Exists (Positive hit) ps → Exists (Positive hit) ps
      found (inl t) = cc
      found (inr x) = x
