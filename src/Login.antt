-- ===== src/Login.antt =====
-- Logging in: crates/core-ssh/src/error.rs, the chain of crates/core-ssh/src/session.rs, and the
-- credentials that apps/desktop/src/auth.rs puts into it.
pub mod Chain
pub mod Credentials
pub mod Connect
pub mod Accounts
pub mod Fallbacks
pub mod Settings
use tern.Prelude.{
  ℕ, Bool, true, false, not, ◌&&◌, Option, none, some, List, [], ◌∷◌, ◌++◌, Text, codes, is_empty,
  any, join, if◌then◌else◌, Result, ok, err,
}

-- An error of russh: the one that `connect` asks for, and the text of any other.
pub data RusshError : Type 0 where
  unknown_key : RusshError
  other_error : Text → RusshError

-- `io` holds the text of an error of the system.
pub data SshError : Type 0 where
  connect_timeout : ℕ → SshError
  host_key_rejected : SshError
  auth_failed : Text → SshError
  agent_error : Text → SshError
  key_load : Text → SshError
  protocol : RusshError → SshError
  io : Text → SshError
  not_connected : SshError

unfoldable pub is_retryable : SshError → Bool
is_retryable (connect_timeout d) = true
is_retryable (io t) = true
is_retryable (protocol t) = true
is_retryable host_key_rejected = false
is_retryable (auth_failed t) = false
is_retryable (agent_error t) = false
is_retryable (key_load t) = false
is_retryable not_connected = false

pub data AuthMethod : Type 0 where
  password : Text → AuthMethod
  key_file : Text → Option Text → AuthMethod
  agent : AuthMethod

-- The kinds of russh that `method_kind` answers; `other_kind` is any of its others.
pub data MethodKind : Type 0 where
  password_kind public_key_kind other_kind : MethodKind

abbrev same_kind : MethodKind → MethodKind → Bool
same_kind password_kind password_kind = true
same_kind public_key_kind public_key_kind = true
same_kind other_kind other_kind = true
same_kind _ _ = false

pub data AuthResult : Type 0 where
  success : AuthResult
  failure : List MethodKind → AuthResult

-- An identity of the agent: a key, or a certificate, which is passed over.
pub data AgentIdentity (K : Type 0) : Type 0 where
  public_key : K → AgentIdentity K
  certificate : AgentIdentity K

-- What the chain calls of russh, on a connection `S` whose state each call may change; `H` is the
-- hash that the server supports.
pub record Russh (S K H : Type 0) : Type 0 where
  pub authenticate_password : Text → Text → S → Result SshError AuthResult × S
  pub load_secret_key : Text → Option Text → Result Text K
  pub best_supported_rsa_hash : S → Result SshError H × S
  pub authenticate_publickey : Text → K → H → S → Result SshError AuthResult × S
  pub connect_agent : S → Result {0, 0} SshError Unit × S
  pub request_identities : S → Result Text (List (AgentIdentity K)) × S
  pub authenticate_publickey_with : Text → K → H → S → Result Text AuthResult × S
  pub algorithm : K → Text
  pub show_duration : ℕ → Text
  pub unknown_key_text : Text

unfoldable pub method_kind : AuthMethod → MethodKind
method_kind (password p) = password_kind
method_kind (key_file path p) = public_key_kind
method_kind agent = public_key_kind

unfoldable pub method_label : AuthMethod → Text
method_label (password p) = codes "password"
method_label (key_file path p) = codes "key " ++ path
method_label agent = codes "agent"

-- `Some(remaining)` that is not empty and does not hold the kind of the method.
unfoldable pub ruled_out : Option (List MethodKind) → AuthMethod → Bool
unfolding method_kind
ruled_out none m = false
ruled_out (some remaining) m =
    not (is_empty remaining) && not (any (same_kind (method_kind m)) remaining)

-- What the chain records of a method.
abbrev pub note : AuthMethod → Text → Text
note m why = method_label m ++ (codes ": " ++ why)

-- What follows the loop of `authenticate`.
unfoldable pub after_loop {ℓ} :
    {S : Type ℓ} → Result {0, 0} (List Text) Unit × S → Result {0, 0} SshError Unit × S
after_loop (ok u, s) = (ok u, s)
after_loop (err [], s) = (err (auth_failed (codes "no authentication methods configured")), s)
after_loop (err (a ∷ rest), s) = (err (auth_failed (join (codes "; ") (a ∷ rest))), s)

module _ {S K H : Type 0} (russh : Russh S K H) where
  -- The `Display` of an error.
  unfoldable pub error_text : SshError → Text
  error_text (connect_timeout d) = codes "connect timed out after " ++ russh.show_duration d
  error_text host_key_rejected = codes "host key rejected"
  error_text (auth_failed t) = codes "authentication failed: " ++ t
  error_text (agent_error t) = codes "ssh-agent: " ++ t
  error_text (key_load t) = codes "could not load key: " ++ t
  error_text (protocol unknown_key) = russh.unknown_key_text
  error_text (protocol (other_error t)) = t
  error_text (io t) = t
  error_text not_connected = codes "not connected"

  abbrev verdict : Option AuthResult → Text → Result SshError AuthResult
  verdict none last_error = err (agent_error last_error)
  verdict (some r) last_error = ok r

  -- The loop over the agent's identities, with its variables `last` and `last_error`.
  unfoldable pub identity_loop :
      Text
      → H
      → Option AuthResult
      → Text
      → List (AgentIdentity K)
      → S
      → Result SshError AuthResult × S
  identity_loop user hash last last_error [] s = (verdict last last_error, s)
  identity_loop user hash last last_error (certificate ∷ ids) s =
      identity_loop user hash last last_error ids s
  identity_loop user hash last last_error (public_key k ∷ ids) s =
      let (answer, s') = russh.authenticate_publickey_with user k hash s in
      elim answer [
        | ok success ↦ (ok success, s')
        | ok (failure r) ↦ identity_loop user hash (some (failure r)) last_error ids s'
        | err e ↦ identity_loop user hash last (russh.algorithm k ++ (codes ": " ++ e)) ids s'
      ]

  -- From the identities on.
  unfoldable pub offer_identities :
      Text → List (AgentIdentity K) → S → Result SshError AuthResult × S
  unfolding identity_loop
  offer_identities user [] s = (err (agent_error (codes "no identities loaded")), s)
  offer_identities user (i ∷ ids) s =
      let (hash, s') = russh.best_supported_rsa_hash s in
      elim hash [
        | err e ↦ (err e, s')
        | ok h ↦ identity_loop user h none (codes "no usable identities") (i ∷ ids) s'
      ]

  unfoldable pub authenticate_with_agent : Text → S → Result SshError AuthResult × S
  unfolding offer_identities
  authenticate_with_agent user s =
      let (reached, s') = russh.connect_agent s in
      let (ids, s'') = russh.request_identities s' in
      elim reached [
        | err e ↦ (err e, s')
        | ok u ↦ elim ids [
          | err t ↦ (err (agent_error t), s'')
          | ok is ↦ offer_identities user is s''
        ]
      ]

  unfoldable pub use_key : Text → Result Text K → S → Result SshError AuthResult × S
  use_key user (err t) s = (err (key_load t), s)
  use_key user (ok k) s =
      let (hash, s') = russh.best_supported_rsa_hash s in
      elim hash [ err e ↦ (err e, s') | ok h ↦ russh.authenticate_publickey user k h s' ]

  unfoldable pub try_method : Text → AuthMethod → S → Result SshError AuthResult × S
  unfolding use_key authenticate_with_agent
  try_method user (password p) s = russh.authenticate_password user p s
  try_method user (key_file path passphrase) s =
      use_key user (russh.load_secret_key path passphrase) s
  try_method user agent s = authenticate_with_agent user s

  -- The loop of `authenticate`, with its variables `offered` and `attempts`; it answers the
  -- attempts if no method succeeds.
  unfoldable pub auth_loop :
      Text
      → Option (List MethodKind)
      → List Text
      → List AuthMethod
      → S
      → Result {0, 0} (List Text) Unit × S
  unfolding try_method ruled_out error_text
  auth_loop user offered attempts [] s = (err attempts, s)
  auth_loop user offered attempts (m ∷ ms) s =
      let skipped =
        auth_loop user offered (attempts ++ note m (codes "not offered by server") ∷ []) ms s in
      let (answer, s') = try_method user m s in
      elim (ruled_out offered m) [
        | true ↦ skipped
        | false ↦ elim answer [
          | ok success ↦ (ok tt, s')
          | ok (failure remaining) ↦
              auth_loop user (some remaining) (attempts ++ note m (codes "rejected") ∷ []) ms s'
          | err e ↦ auth_loop user offered (attempts ++ note m (error_text e) ∷ []) ms s'
        ]
      ]

  unfoldable pub authenticate : Text → List AuthMethod → S → Result {0, 0} SshError Unit × S
  unfolding auth_loop after_loop
  authenticate user methods s = after_loop (auth_loop user none [] methods s)
