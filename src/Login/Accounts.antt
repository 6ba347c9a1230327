-- ===== src/Login/Accounts.antt =====
-- What a saved host is logged in with: apps/desktop/src/auth.rs.
use tern.Prelude.{
  ℕ, ◌≡◌, ◌≢◌, ◌↔◌, refl, sym, ap, ◌∙◌, false≢true, true, false, not, Option, none, List, [], ◌∷◌,
  map, filter, All, Text, Bool-cases, inl, inr,
}
use tern.Login.{AuthMethod, password, key_file, agent}
use tern.Store.{AuthKind, agent_kind, key_file_kind, password_kind, Host}
use tern.Login.Credentials.{
  Keyring, same_auth, account_in, account_for, build, secret_of, auth_for_host,
}

account_in-none :
    (id : ℕ) (kinds : List AuthKind) → account_in id kinds ≡ none → All (λ k. k ≡ agent_kind) kinds
unfolding account_in
account_in-none id [] h = tt
account_in-none id (agent_kind ∷ kinds) h = (refl, account_in-none id kinds h)
account_in-none id (key_file_kind ∷ kinds) h = cc
account_in-none id (password_kind ∷ kinds) h = cc

account_in-agents :
    (id : ℕ) (kinds : List AuthKind) → All (λ k. k ≡ agent_kind) kinds → account_in id kinds ≡ none
unfolding account_in
account_in-agents id [] h = refl
account_in-agents id (agent_kind ∷ kinds) (e, h) = account_in-agents id kinds h
account_in-agents id (key_file_kind ∷ kinds) (e, h) = cc
account_in-agents id (password_kind ∷ kinds) (e, h) = cc

-- A host has no account in the keyring exactly if every method of its chain is the agent.
pub account_for-none_iff :
    (host : Host)
    → (account_for host ≡ none) ↔ All (λ k. k ≡ agent_kind) (host.auth ∷ host.auth_fallbacks)
unfolding account_for
account_for-none_iff host = (
  account_in-none host.id (host.auth ∷ host.auth_fallbacks),
  account_in-agents host.id (host.auth ∷ host.auth_fallbacks),
)

-- The kind of a method.
abbrev pub auth_of : AuthMethod → AuthKind
auth_of (password p) = password_kind
auth_of (key_file path p) = key_file_kind
auth_of agent = agent_kind

module _ (host : Host) (stored : Option Text) where
  auth_of-build : (k : AuthKind) → auth_of (build host stored k) ≡ k
  unfolding build
  auth_of-build agent_kind = refl
  auth_of-build key_file_kind = refl
  auth_of-build password_kind = refl

  same_auth_refl : (k : AuthKind) → same_auth k k ≡ true
  same_auth_refl agent_kind = refl
  same_auth_refl key_file_kind = refl
  same_auth_refl password_kind = refl

  -- No other method has the kind of the primary one.
  abbrev Others : List AuthMethod → Type 0
  Others ms = All (λ m. auth_of m ≢ host.auth) ms

  others_of : List AuthKind → List AuthMethod
  others_of ks = map (build host stored) (filter (λ k. not (same_auth k host.auth)) ks)

  others_of-Others : (ks : List AuthKind) → Others (others_of ks)
  unfolding others_of
  others_of-Others [] = tt
  others_of-Others (k ∷ ks) = elim (Bool-cases (same_auth k host.auth)) [
    | inl e ↦ rw (e, filter) (others_of-Others ks)
    | inr e ↦ rw (e, filter) (other e, others_of-Others ks)
  ]
    where
      other : same_auth k host.auth ≡ false → auth_of (build host stored k) ≢ host.auth
      other e p = absurd (
          false≢true (
            sym e
            ∙ (ap (λ x. same_auth x host.auth) (sym (auth_of-build k) ∙ p)
                ∙ same_auth_refl host.auth)))

-- Whatever the keyring answers, the chain begins with the host's primary method and no later method
-- is of that kind.
pub auth_for_host-primary_once :
    {V : Type 0} (ring : Keyring V) (host : Host) (v : V)
    → (first : AuthMethod) × (rest : List AuthMethod) × ((auth_for_host ring host v).methods
        ≡ first ∷ rest)
      × (auth_of first ≡ host.auth)
      × All (λ m. auth_of m ≢ host.auth) rest
unfolding auth_for_host others_of
auth_for_host-primary_once ring host v =
    let stored : Option Text = (secret_of ring host.secret_ref v).0 in
    (
      build host stored host.auth,
      others_of host stored host.auth_fallbacks,
      refl,
      auth_of-build host stored host.auth,
      others_of-Others host stored host.auth_fallbacks,
    )
