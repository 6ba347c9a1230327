-- ===== src/KnownHosts/Verdict.antt =====
-- What the verdict of `verify` means, and that it is the only one with that meaning.
use tern.Prelude.{
  ℕ, ◌≡◌, ◌⊎◌, ◌↔◌, inl, inr, refl, true, false, Option, none, some, List, [], ◌∷◌, Text, All,
  FirstOf, here, later, FirstOf-unique, no_first, Bool-cases, list_beq_iff, false≢true, list_eq,
  nat_eq, ◌==◌, subst, sym, ap, ◌∙◌,
}
use tern.KnownHosts.{
  keep_first, Marker, revoked, cert_authority, Entry, SshKeys, HostKeyVerdict, trusted, unknown,
  changed, revoked_at, Judgement, decide, carry_on, patterns_match, judge, judge_plain,
  judge_marked, verify_entries, verify_contents, match_target, parsed_entries,
}

module _ {K : Type 0} (lib : SshKeys K) (target host : Text) (key : K) where
  abbrev pub Names : Entry K → Type 0
  Names e = patterns_match lib e.host_patterns target host ≡ true

  -- An `@revoked` entry for the host.
  abbrev pub Revokes : Entry K → Type 0
  Revokes e = Names e × (e.marker ≡ some revoked)

  -- An entry for the host that holds the offered key.
  abbrev pub Vouches : Entry K → Type 0
  Vouches e = Names e × (e.marker ≡ none) × (lib.same_key_data e.public_key key ≡ true)

  -- An entry for the host that holds another key of the offered algorithm.
  abbrev pub Differs : Entry K → Type 0
  Differs e =
      Names e
      × (e.marker ≡ none)
      × (lib.same_key_data e.public_key key ≡ false)
      × (lib.algorithm e.public_key ≡ lib.algorithm key)

  abbrev pub Decides : ℕ × Entry K → Type 0
  Decides (line, e) = Revokes e ⊎ Vouches e

  abbrev pub Conflicts : ℕ × Entry K → Type 0
  Conflicts (line, e) = Differs e

  abbrev pub Gives : ℕ × Entry K → HostKeyVerdict → Type 0
  Gives (line, e) v = (Revokes e × (v ≡ revoked_at line)) ⊎ (Vouches e × (v ≡ trusted))

  abbrev pub report_of : ℕ × Entry K → HostKeyVerdict
  report_of (line, e) = changed line (lib.algorithm e.public_key) (lib.fingerprint e.public_key)

  -- What an undecided file says: the first conflict, if there is one.
  abbrev pub Undecided : Option HostKeyVerdict → List (ℕ × Entry K) → HostKeyVerdict → Type 0
  Undecided (some w) es v = v ≡ w
  Undecided none es v =
      (All (λ x. ¬ Conflicts x) es × (v ≡ unknown))
      ⊎ ((x : ℕ × Entry K) × FirstOf Conflicts x es × (v ≡ report_of x))

  -- The meaning of a verdict: the first deciding entry gives it, or there is none and the first
  -- conflict is reported.
  abbrev pub SaysFrom : Option HostKeyVerdict → List (ℕ × Entry K) → HostKeyVerdict → Type 0
  SaysFrom found es v =
      ((x : ℕ × Entry K) × FirstOf Decides x es × Gives x v)
      ⊎ (All (λ x. ¬ Decides x) es × Undecided found es v)

  abbrev pub Says : List (ℕ × Entry K) → HostKeyVerdict → Type 0
  Says = SaysFrom none

  data View (found : Option HostKeyVerdict) (line : ℕ) (e : Entry K) : Judgement → Type 0 where
    decided : (v : HostKeyVerdict) → Gives (line, e) v → View found line e (decide v)
    conflicting :
        ¬ Decides (line, e)
        → Differs e
        → View found line e (carry_on (keep_first found (report_of (line, e))))
    passed : ¬ Decides (line, e) → ¬ Differs e → View found line e (carry_on found)

  judge_plain-View :
      (found : Option HostKeyVerdict) (line : ℕ) (e : Entry K)
      → Names e
      → e.marker ≡ none
      → View found line e (judge_plain lib key found line e)
  unfolding judge_plain
  judge_plain-View found line e n m = elim (Bool-cases (lib.same_key_data e.public_key key)) [
    | inl same ↦ rw same (decided trusted (inr ((n, m, same), refl)))
    | inr other ↦ elim (Bool-cases (lib.algorithm e.public_key == lib.algorithm key)) [
      | inl alg ↦
          rw (other, alg) (conflicting (undecided other) (n, m, other, (list_beq_iff _ _).0 alg))
      | inr alg ↦ rw (other, alg) (passed (undecided other) (λ d. misfit alg d.3))
    ]
  ]
    where
      undecided : lib.same_key_data e.public_key key ≡ false → ¬ Decides (line, e)
      undecided other (inl r) = cc
      undecided other (inr vouch) = cc

      misfit :
          (lib.algorithm e.public_key == lib.algorithm key) ≡ false
          → ¬ (lib.algorithm e.public_key ≡ lib.algorithm key)
      misfit alg same = false≢true (sym alg ∙ (list_beq_iff _ _).1 same)

  judge_marked-View :
      (found : Option HostKeyVerdict) (line : ℕ) (e : Entry K) (m : Option Marker)
      → Names e
      → e.marker ≡ m
      → View found line e (judge_marked lib m key found line e)
  unfolding judge_marked
  judge_marked-View found line e (some revoked) n h = decided (revoked_at line) (inl ((n, h), refl))
  judge_marked-View found line e (some cert_authority) n h = passed (not_decides h) (λ d. cc)
    where
      not_decides : e.marker ≡ some cert_authority → ¬ Decides (line, e)
      not_decides h (inl r) = cc
      not_decides h (inr v) = cc
  judge_marked-View found line e none n h = judge_plain-View found line e n h

  judge-View :
      (found : Option HostKeyVerdict) (line : ℕ) (e : Entry K)
      → View found line e (judge lib target host key found line e)
  unfolding judge
  judge-View found line e = elim (Bool-cases (patterns_match lib e.host_patterns target host)) [
    | inl n ↦ rw n (judge_marked-View found line e e.marker n refl)
    | inr n ↦ rw n (passed (unnamed n) (λ d. cc))
  ]
    where
      unnamed : patterns_match lib e.host_patterns target host ≡ false → ¬ Decides (line, e)
      unnamed n (inl r) = cc
      unnamed n (inr v) = cc

  -- An entry that neither decides nor conflicts changes nothing.
  SaysFrom-passed :
      (found : Option HostKeyVerdict) (x : ℕ × Entry K) (es : List (ℕ × Entry K))
      (v : HostKeyVerdict)
      → ¬ Decides x
      → ¬ Conflicts x
      → SaysFrom found es v
      → SaysFrom found (x ∷ es) v
  SaysFrom-passed found x es v n m (inl (y, f, g)) = inl (y, later n f, g)
  SaysFrom-passed none x es v n m (inr (a, inl (b, q))) = inr ((n, a), inl ((m, b), q))
  SaysFrom-passed none x es v n m (inr (a, inr (y, f, q))) = inr ((n, a), inr (y, later m f, q))
  SaysFrom-passed (some w) x es v n m (inr (a, q)) = inr ((n, a), q)

  -- A conflict is what an undecided file reports, unless one was found before.
  SaysFrom-conflict :
      (found : Option HostKeyVerdict) (x : ℕ × Entry K) (es : List (ℕ × Entry K))
      (v : HostKeyVerdict)
      → ¬ Decides x
      → Conflicts x
      → SaysFrom (keep_first found (report_of x)) es v
      → SaysFrom found (x ∷ es) v
  SaysFrom-conflict none x es v n m (inl (y, f, g)) = inl (y, later n f, g)
  SaysFrom-conflict none x es v n m (inr (a, q)) = inr ((n, a), inr (x, here m, q))
  SaysFrom-conflict (some w) x es v n m (inl (y, f, g)) = inl (y, later n f, g)
  SaysFrom-conflict (some w) x es v n m (inr (a, q)) = inr ((n, a), q)

  -- One entry more in front of the rest.
  Says-cons :
      (found : Option HostKeyVerdict) (line : ℕ) (e : Entry K) (es : List (ℕ × Entry K))
      {j : Judgement}
      → View found line e j
      → ((found' : Option HostKeyVerdict)
          → SaysFrom found' es (verify_entries lib target host key found' es))
      → SaysFrom found
          ((line, e) ∷ es)
          (elim j [ decide v ↦ v | carry_on found' ↦ verify_entries lib target host key found' es ])
  Says-cons found line e es (decided v g) ih = inl ((line, e), here (gives g), g)
    where
      gives : {v : HostKeyVerdict} → Gives (line, e) v → Decides (line, e)
      gives (inl (r, _)) = inl r
      gives (inr (r, _)) = inr r
  Says-cons found line e es (passed n m) ih = SaysFrom-passed found (line, e) es _ n m (ih found)
  Says-cons found line e es (conflicting n d) ih = SaysFrom-conflict found (line, e) es _ n d (ih _)

  verify_entries-SaysFrom :
      (found : Option HostKeyVerdict) (es : List (ℕ × Entry K))
      → SaysFrom found es (verify_entries lib target host key found es)
  unfolding verify_entries
  verify_entries-SaysFrom none [] = inr (tt, inl (tt, refl))
  verify_entries-SaysFrom (some v) [] = inr (tt, refl)
  verify_entries-SaysFrom found ((line, e) ∷ es) =
      Says-cons found line e es (judge-View found line e) (λ f. verify_entries-SaysFrom f es)

  Gives-unique : (x : ℕ × Entry K) {v w : HostKeyVerdict} → Gives x v → Gives x w → v ≡ w
  Gives-unique x (inl (_, p)) (inl (_, q)) = p ∙ sym q
  Gives-unique x (inl (r, p)) (inr (s, q)) = cc
  Gives-unique x (inr (r, p)) (inl (s, q)) = cc
  Gives-unique x (inr (_, p)) (inr (_, q)) = p ∙ sym q

  -- No two verdicts have the meaning on one file.
  pub Says-unique : (es : List (ℕ × Entry K)) {v w : HostKeyVerdict} → Says es v → Says es w → v ≡ w
  Says-unique es {w = w} (inl (x, f, g)) (inl (y, f', h)) =
      Gives-unique x g (subst (λ z. Gives z w) (FirstOf-unique f' f) h)
  Says-unique es (inl (x, f, g)) (inr (a, _)) = absurd (no_first f a)
  Says-unique es (inr (a, _)) (inl (x, f, g)) = absurd (no_first f a)
  Says-unique es (inr (_, inl (a, p))) (inr (_, inl (b, q))) = p ∙ sym q
  Says-unique es (inr (_, inl (a, p))) (inr (_, inr (x, f, q))) = absurd (no_first f a)
  Says-unique es (inr (_, inr (x, f, p))) (inr (_, inl (b, q))) = absurd (no_first f b)
  Says-unique es (inr (_, inr (x, f, p))) (inr (_, inr (y, f', q))) =
      p ∙ (ap report_of (FirstOf-unique f f') ∙ sym q)

  pub verify_entries_iff :
      (es : List (ℕ × Entry K)) (v : HostKeyVerdict)
      → (verify_entries lib target host key none es ≡ v) ↔ Says es v
  verify_entries_iff es v = (
    λ e. subst (Says es) e (verify_entries-SaysFrom none es),
    λ s. Says-unique es (verify_entries-SaysFrom none es) s,
  )

-- The verdict on a file is `v` exactly if the first entry for the host that is `@revoked` or holds
-- the offered key gives `v` (`revoked_at` its line, or `trusted`), or there is no such entry and
-- `v` is `changed` at the first entry for the host that holds another key of the offered
-- algorithm, or there is neither and `v` is `unknown`.
pub verify_contents_iff :
    {K : Type 0} (lib : SshKeys K) (contents host : Text) (port : ℕ) (key : K) (v : HostKeyVerdict)
    → (verify_contents lib contents host port key ≡ v)
      ↔ Says lib (match_target host port) host key (parsed_entries lib contents) v
unfolding verify_contents
verify_contents_iff lib contents host port key v =
    verify_entries_iff lib (match_target host port) host key (parsed_entries lib contents) v
