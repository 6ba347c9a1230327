-- ===== src/SshConfig/Parse/Absorb/Blocks.antt =====
-- Stanzas and what ends them: which directives `absorb` gives to which host.
use tern.Prelude.{
  arith, ◌≡◌, refl, sym, ap, ◌∙◌, true, false, Option, none, List, [], ◌∷◌, ◌++◌, Text, codes, ◌==◌,
  nat_eq, list_eq, All, if◌then◌else◌,
}
use tern.SshConfig.Lex.{Directive}
use tern.SshConfig.Parse.Absorb.{
  Files, State, flush, directive, each_directive, absorb, match_directive, setting,
}

-- A directive that is a setting: no `Host`, `Match` or `Include`.
abbrev pub IsSetting : Directive → Type 0
IsSetting d =
    ((d.keyword == codes "host") ≡ false)
    × ((d.keyword == codes "match") ≡ false)
    × ((d.keyword == codes "include") ≡ false)

module _ {P : Type 0} (fs : Files P) (parse : P → State P → State P) (file : Text)
    (base : Option P) where
  each_directive-append :
      (ds es : List Directive) (st : State P)
      → each_directive fs parse file base (ds ++ es) st
        ≡ each_directive fs parse file base es (each_directive fs parse file base ds st)
  unfolding each_directive
  each_directive-append [] es st = refl
  each_directive-append (d ∷ ds) es st =
      each_directive-append ds es (directive fs parse file base d st)

  directive-setting :
      (d : Directive) (st : State P)
      → IsSetting d
      → directive fs parse file base d st ≡ (if st.in_match then st else setting fs file d st)
  unfolding directive
  directive-setting d st (h, m, i) = rw (h, m, i) refl

  in_match-skips :
      (ds : List Directive) (st : State P)
      → st.in_match ≡ true
      → All IsSetting ds
      → each_directive fs parse file base ds st ≡ st
  unfolding each_directive
  in_match-skips [] st m h = refl
  in_match-skips (d ∷ ds) st m (s, h) =
      ap (each_directive fs parse file base ds) (directive-setting d st s ∙ rw m refl)
      ∙ in_match-skips ds st m h

  directive-match :
      (d : Directive) (st : State P)
      → (d.keyword == codes "host") ≡ false
      → (d.keyword == codes "match") ≡ true
      → directive fs parse file base d st ≡ match_directive fs file d.line st
  unfolding directive
  directive-match d st h m = rw (h, m) refl

  -- Two runs of directives that act alike may stand for each other.
  absorb-replace :
      (before es fs' : List Directive) (st : State P)
      → ((s : State P)
          → each_directive fs parse file base es s ≡ each_directive fs parse file base fs' s)
      → absorb fs parse (before ++ es) file base st ≡ absorb fs parse (before ++ fs') file base st
  unfolding absorb
  absorb-replace before es fs' st h =
      let from : State P = record st { current = none; in_match = false } in
      ap (λ (s : State P). record st { visited = s.visited; cfg = flush s.current s.cfg })
        (each_directive-append before es from
          ∙ (h (each_directive fs parse file base before from)
              ∙ sym (each_directive-append before fs' from)))

  match-skips :
      (m : Directive) (ds rest : List Directive) (st : State P)
      → (m.keyword == codes "host") ≡ false
      → (m.keyword == codes "match") ≡ true
      → All IsSetting ds
      → each_directive fs parse file base (m ∷ (ds ++ rest)) st
        ≡ each_directive fs parse file base (m ∷ rest) st
  unfolding each_directive match_directive
  match-skips m ds rest st h k s =
      each_directive-append ds rest (directive fs parse file base m st)
      ∙ ap (each_directive fs parse file base rest) (
          in_match-skips ds (directive fs parse file base m st)
            (rw (directive-match m st h k) (entered m st)) s)
    where
      entered : (m : Directive) (st : State P) → (match_directive fs file m.line st).in_match ≡ true
      entered m st = refl

  -- The settings that follow a `Match` are not given to any host: up to the next `Host`, `Match` or
  -- `Include` they may be left out of the file, wherever in it they stand.
  pub absorb-match_isolates :
      (before : List Directive) (m : Directive) (ds rest : List Directive) (st : State P)
      → (m.keyword == codes "host") ≡ false
      → (m.keyword == codes "match") ≡ true
      → All IsSetting ds
      → absorb fs parse (before ++ (m ∷ (ds ++ rest))) file base st
        ≡ absorb fs parse (before ++ (m ∷ rest)) file base st
  absorb-match_isolates before m ds rest st h k s =
      absorb-replace before (m ∷ (ds ++ rest)) (m ∷ rest) st
        (λ from. match-skips m ds rest from h k s)

  setting-no_host :
      (ds : List Directive) (st : State P)
      → st.current ≡ none
      → All IsSetting ds
      → each_directive fs parse file base ds st ≡ st
  unfolding each_directive setting
  setting-no_host [] st c h = refl
  setting-no_host (d ∷ ds) st c (s, h) =
      ap (each_directive fs parse file base ds) (directive-setting d st s ∙ dropped)
      ∙ setting-no_host ds st c h
    where
      dropped : (if st.in_match then st else setting fs file d st) ≡ st
      dropped = ground arith

  -- The settings in front of the first `Host` leave no trace, neither in a stanza nor as a warning:
  -- the file is read as if it began behind them.
  pub absorb-leading_settings :
      (ds rest : List Directive) (st : State P)
      → All IsSetting ds
      → absorb fs parse (ds ++ rest) file base st ≡ absorb fs parse rest file base st
  unfolding absorb
  absorb-leading_settings ds rest st h =
      let from : State P = record st { current = none; in_match = false } in
      ap (λ (s : State P). record st { visited = s.visited; cfg = flush s.current s.cfg })
        (each_directive-append ds rest from
          ∙ ap (each_directive fs parse file base rest) (setting-no_host ds from refl h))
