-- ===== src/SshConfig/Parse/Absorb/Grows.antt =====
-- What has been parsed stays, and so do the paths that were visited: `parse_into` and what it calls
-- in crates/core-store/src/ssh_config/parse.rs.
use tern.Prelude.{
  ℕ, zero, suc, ◌≡◌, refl, sym, ap, ◌∙◌, Bool, true, false, Option, none, some, List, [], ◌∷◌, ◌++◌,
  Text, codes, ◌==◌, nat_eq, list_eq, PartialEq, contains, Distinct, append_assoc, append-nil,
  Bool-cases, inl, inr, if◌then◌else◌, is_empty, arith,
}
use tern.SshConfig.Lex.{Directive, tokenize}
use tern.SshConfig.Parse.{
  Warning, Stanza, ParsedConfig, understood, unsupported_keyword, match_unsupported, include_cycle,
  include_unreadable,
}
use tern.SshConfig.Parse.Absorb.{
  apply, Files, State, flush, warn, directive, each_directive, absorb, host_directive,
  match_directive, include_directive, setting, parse_all, include, include_each, parse_into,
  glob_paths, included_path, expand_tilde,
}

abbrev pub Prefix {ℓ} : {A : Type ℓ} → List A → List A → Type ℓ
Prefix {A = A} xs ys = (more : List A) × (ys ≡ xs ++ more)

Prefix-refl {ℓ} : {A : Type ℓ} (xs : List A) → Prefix xs xs
Prefix-refl xs = ([], sym (append-nil xs))

Prefix-trans {ℓ} : {A : Type ℓ} (xs ys zs : List A) → Prefix xs ys → Prefix ys zs → Prefix xs zs
Prefix-trans xs ys zs (m, p) (n, q) = (m ++ n, q ∙ (ap (λ t. t ++ n) p ∙ append_assoc xs m n))

-- A configuration that is extended.
abbrev pub Extends : ParsedConfig → ParsedConfig → Type 0
Extends c c' = Prefix c.stanzas c'.stanzas × Prefix c.warnings c'.warnings

Extends-refl : (c : ParsedConfig) → Extends c c
Extends-refl c = (Prefix-refl c.stanzas, Prefix-refl c.warnings)

Extends-trans : (a b c : ParsedConfig) → Extends a b → Extends b c → Extends a c
Extends-trans a b c (s, w) (t, v) = (
  Prefix-trans a.stanzas b.stanzas c.stanzas s t,
  Prefix-trans a.warnings b.warnings c.warnings w v,
)

warn-Extends : (c : ParsedConfig) (w : Warning) → Extends c (warn c w)
warn-Extends c w = (Prefix-refl c.stanzas, (w ∷ [], refl))

flush-Extends : (s : Option Stanza) (c : ParsedConfig) → Extends c (flush s c)
unfolding flush
flush-Extends none c = Extends-refl c
flush-Extends (some st) c = elim (Bool-cases (is_empty st.patterns)) [
  | inl e ↦ rw e (Extends-refl c)
  | inr e ↦ rw e ((st ∷ [], refl), Prefix-refl c.warnings)
]

module _ {P : Type 0} ⦃e : PartialEq P⦄ where
  -- Every path of the one visit set is in the other.
  abbrev pub Covers : List P → List P → Type 0
  Covers v w = (p : P) → contains v p ≡ true → contains w p ≡ true

  abbrev pub Visits : List P → List P → Type 0
  Visits v w = Covers v w × (Distinct v → Distinct w)

  none_visited : (v : List P) → Visits v v
  none_visited v = ((λ p c. c), λ d. d)

  -- From one state to a later one.
  abbrev pub Grows : State P → State P → Type 0
  Grows a b = Extends a.cfg b.cfg × Visits a.visited b.visited

  Grows-trans : (a b c : State P) → Grows a b → Grows b c → Grows a c
  Grows-trans a b c (x, (v, d)) (y, (w, f)) =
      (Extends-trans a.cfg b.cfg c.cfg x y, ((λ p k. w p (v p k)), λ k. f (d k)))

  module _ (fs : Files P) (parse : P → State P → State P)
      (h : (p : P) (s : State P) → Grows s (parse p s)) where
    parse_all-Grows : (ps : List P) (s : State P) → Grows s (parse_all fs parse ps s)
    unfolding parse_all
    parse_all-Grows [] s = (Extends-refl s.cfg, none_visited _)
    parse_all-Grows (p ∷ ps) s =
        Grows-trans s (parse p s) (parse_all fs parse ps (parse p s)) (h p s)
          (parse_all-Grows ps (parse p s))

    module _ (base : P) (file : Text) (line : ℕ) where
      pub include-Grows :
          (pattern : Text) (s : State P) → Grows s (include fs parse base file line pattern s)
      unfolding include
      include-Grows pattern s =
          elim (glob_paths fs (included_path fs base (expand_tilde fs pattern)))
            as (λ ps. Grows s (elim ps [
              | [] ↦ record s { cfg = warn s.cfg (include_unreadable file line pattern) }
              | p ∷ qs ↦ parse_all fs parse (p ∷ qs) s
            ])) [
              | [] ↦ (warn-Extends s.cfg _, none_visited _)
              | p ∷ ps ↦ parse_all-Grows (p ∷ ps) s
            ]

      include_each-Grows :
          (patterns : List Text) (s : State P)
          → Grows s (include_each fs parse base file line patterns s)
      unfolding include_each
      include_each-Grows [] s = (Extends-refl s.cfg, none_visited _)
      include_each-Grows (p ∷ ps) s =
          Grows-trans s (include fs parse base file line p s)
            (include_each fs parse base file line ps (include fs parse base file line p s))
            (include-Grows p s) (include_each-Grows ps (include fs parse base file line p s))

    setting-Grows : (file : Text) (d : Directive) (s : State P) → Grows s (setting fs file d s)
    unfolding setting
    setting-Grows file d s =
        elim s.current
          as (λ o. Grows s (elim o [
            | none ↦ s
            | some stanza ↦
                if contains understood d.keyword
                then record s { current = some (apply fs stanza d.keyword d.args) }
                else record s { cfg = warn s.cfg (unsupported_keyword file d.line d.keyword) }
          ])) [
            | none ↦ (Extends-refl s.cfg, none_visited _)
            | some stanza ↦ elim (Bool-cases (contains understood d.keyword)) [
              | inl u ↦ rw u (Extends-refl s.cfg, none_visited _)
              | inr u ↦
                  rw u
                    (warn-Extends s.cfg (unsupported_keyword file d.line d.keyword), none_visited _)
            ]
          ]

    include_directive-Grows :
        (file : Text) (base : Option P) (d : Directive) (s : State P)
        → Grows s (include_directive fs parse file base d s)
    unfolding include_directive
    include_directive-Grows file none d s = (warn-Extends s.cfg _, none_visited _)
    include_directive-Grows file (some base) d s = include_each-Grows base file d.line d.args s

    match_directive-Grows :
        (file : Text) (line : ℕ) (s : State P) → Grows s (match_directive fs file line s)
    unfolding match_directive
    match_directive-Grows file line s = (
      Extends-trans s.cfg (flush s.current s.cfg) _ (flush-Extends s.current s.cfg)
          (warn-Extends (flush s.current s.cfg) (match_unsupported file line)),
      none_visited _,
    )

    host_directive-Grows : (args : List Text) (s : State P) → Grows s (host_directive fs args s)
    unfolding host_directive
    host_directive-Grows args s = (flush-Extends s.current s.cfg, none_visited _)

    -- One test of a directive.
    if-Grows : (b : Bool) (s x y : State P) → Grows s x → Grows s y → Grows s (if b then x else y)
    if-Grows true s x y g k = g
    if-Grows false s x y g k = k

    pub directive-Grows :
        (file : Text) (base : Option P) (d : Directive) (s : State P)
        → Grows s (directive fs parse file base d s)
    unfolding directive
    directive-Grows file base d s =
        if-Grows (d.keyword == codes "host") s _ _ (host_directive-Grows d.args s) (
          if-Grows (d.keyword == codes "match") s _ _ (match_directive-Grows file d.line s) (
            if-Grows (d.keyword == codes "include") s _ _ (include_directive-Grows file base d s) (
              if-Grows s.in_match s _ _ (Extends-refl s.cfg, none_visited _)
                (setting-Grows file d s))))

    each_directive-Grows :
        (file : Text) (base : Option P) (ds : List Directive) (s : State P)
        → Grows s (each_directive fs parse file base ds s)
    unfolding each_directive
    each_directive-Grows file base [] s = (Extends-refl s.cfg, none_visited _)
    each_directive-Grows file base (d ∷ ds) s =
        let next : State P = directive fs parse file base d s in
        Grows-trans s next (each_directive fs parse file base ds next)
          (directive-Grows file base d s) (each_directive-Grows file base ds next)

    pub absorb-Grows :
        (ds : List Directive) (file : Text) (base : Option P) (s : State P)
        → Grows s (absorb fs parse ds file base s)
    unfolding absorb
    absorb-Grows ds file base s =
        let from : State P = record s { current = none; in_match = false } in
        let done : State P = each_directive fs parse file base ds from in
        let (x, v) = each_directive-Grows file base ds from in
        (
          Extends-trans s.cfg done.cfg (flush done.current done.cfg) x
              (flush-Extends done.current done.cfg),
          v,
        )

  -- A configuration that is parsed into grows, and so does the visit set, without repetitions.
  pub parse_into-Grows :
      (fs : Files P) (left : ℕ) (path : P) (s : State P) → Grows s (parse_into fs left path s)
  unfolding parse_into
  parse_into-Grows fs zero path s =
      (warn-Extends s.cfg (include_cycle (fs.display path) 0), none_visited _)
  parse_into-Grows fs (suc left) path s =
      elim (Bool-cases (contains s.visited (fs.canonical path))) [
        | inl c ↦
            rw (c, parse_into)
              (warn-Extends s.cfg (include_cycle (fs.display path) 0), none_visited _)
        | inr c ↦
            let entered : State P = record s { visited = fs.canonical path ∷ s.visited } in
            let entering : Visits s.visited entered.visited =
              ((λ p k. ground arith), λ d. (c, d)) in
            rw (c, parse_into)
              (elim (fs.read path)
                as (λ o. Grows s (elim o [
                  | none ↦ entered
                  | some text ↦
                      absorb fs (parse_into fs left) (tokenize fs.to_lowercase text)
                        (fs.display path) (fs.parent path) entered
                ])) [
                  | none ↦ (Extends-refl s.cfg, entering)
                  | some text ↦
                      let (x, (w, d)) =
                        absorb-Grows fs (parse_into fs left) (λ p t. parse_into-Grows fs left p t)
                          (tokenize fs.to_lowercase text) (fs.display path) (fs.parent path)
                          entered in
                      (x, ((λ p k. w p (entering.0 p k)), λ k. d (entering.1 k)))
                ])
      ]
