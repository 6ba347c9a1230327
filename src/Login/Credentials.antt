-- ===== src/Login/Credentials.antt =====
-- The credentials of a saved host: apps/desktop/src/auth.rs.
use tern.Prelude.{
  ℕ, Bool, true, false, not, Option, none, some, List, [], ◌∷◌, ◌++◌, Text, codes, number_text, map,
  filter, list_eq, nat_eq, Result, ok, err,
}
use tern.Login.{AuthMethod, password, key_file, agent}
use tern.Store.{AuthKind, agent_kind, key_file_kind, password_kind, Host}

pub data VaultError : Type 0 where
  not_found : VaultError
  store_error : Text → VaultError

-- The keyring `V` of the crate `keyring`.
pub record Keyring (V : Type 0) : Type 0 where
  pub get_password : Text → V → Result VaultError Text
  pub set_password : (account password : Text) → V → Result {0, 0} VaultError Unit × V
  pub delete : Text → V → Result {0, 0} VaultError Unit × V

abbrev pub same_auth : AuthKind → AuthKind → Bool
same_auth agent_kind agent_kind = true
same_auth key_file_kind key_file_kind = true
same_auth password_kind password_kind = true
same_auth _ _ = false

unfoldable pub password_account : ℕ → Text
password_account id = codes "host/" ++ (number_text id ++ codes "/password")

unfoldable pub passphrase_account : ℕ → Text
passphrase_account id = codes "host/" ++ (number_text id ++ codes "/passphrase")

-- `find_map` over the chain.
unfoldable pub account_in : ℕ → List AuthKind → Option Text
unfolding password_account passphrase_account
account_in id [] = none
account_in id (password_kind ∷ kinds) = some (password_account id)
account_in id (key_file_kind ∷ kinds) = some (passphrase_account id)
account_in id (agent_kind ∷ kinds) = account_in id kinds

unfoldable pub account_for : Host → Option Text
unfolding account_in
account_for host = account_in host.id (host.auth ∷ host.auth_fallbacks)

-- `stored.clone().unwrap_or_default()`
abbrev pub or_empty : Option Text → Text
or_empty none = []
or_empty (some t) = t

-- The closure `build`.
unfoldable pub build : Host → Option Text → AuthKind → AuthMethod
build host stored agent_kind = agent
build host stored password_kind = password (or_empty stored)
build host stored key_file_kind = key_file (or_empty host.key_path) stored

pub record ResolvedAuth : Type 0 where
  pub methods : List AuthMethod
  pub degraded : Option Text

module _ {V : Type 0} (ring : Keyring V) where
  unfoldable pub clear_secret : Text → V → Result {0, 0} VaultError Unit × V
  clear_secret account v =
      let (answer, v') = ring.delete account v in
      elim answer [
        | ok u ↦ (ok u, v')
        | err not_found ↦ (ok tt, v')
        | err (store_error t) ↦ (err (store_error t), v')
      ]

  unfoldable pub stored_secret : Host → V → Option Text
  unfolding account_for
  stored_secret host v = elim (account_for host) [
    | none ↦ none
    | some account ↦ elim (ring.get_password account v) [ ok t ↦ some t | err e ↦ none ]
  ]

  -- The secret and the note of a degradation.
  unfoldable pub read_secret : Text → V → Option Text × Option Text
  read_secret account v = elim (ring.get_password account v) [
    | ok secret ↦ (some secret, none)
    | err not_found ↦ (none, none)
    | err (store_error reason) ↦ (
      none,
      some (
          codes "a credential is saved for this host but the credential store could not be read ("
          ++ (reason ++ codes "); connecting without it")),
    )
  ]

  abbrev pub secret_of : Option Text → V → Option Text × Option Text
  secret_of none v = (none, none)
  secret_of (some account) v = read_secret account v

  unfoldable pub auth_for_host : Host → V → ResolvedAuth
  unfolding read_secret build
  auth_for_host host v =
      let (stored, degraded) = secret_of host.secret_ref v in
      record {
        methods =
            build host stored host.auth
            ∷ map (build host stored)
                (filter (λ k. not (same_auth k host.auth)) host.auth_fallbacks);
        degraded = degraded;
      }
