-- ===== src/Sessions/Retried.antt =====
-- When a reconnect is tried again: `establish_saved_host` of apps/desktop/src/commands.rs.
use tern.Prelude.{
  ℕ, ◌≡◌, refl, ap, ◌∙◌, Bool, true, false, Option, none, some, Result, ok, err, false≢true,
}
use tern.Store.{Host, StoreError, Db}
use tern.Store.Hosts
use tern.Store.Settings.{Json, get_or}
use tern.Login.{SshError, is_retryable}
use tern.Login.Credentials.{Keyring, auth_for_host}
use tern.Login.Settings.{SessionConfig, for_host}
use tern.Sessions.{
  ReconnectError, Messages, from_ssh, connect_found, establish_saved_host, key_hash_known_hosts,
}

module _ {V T : Type 0} (ring : Keyring V) (texts : Messages) (bools : Json Bool)
    (connect : (insecure hash_new : Bool)
      → SessionConfig
      → (cols rows : ℕ) → Result {0, 0} SshError T) where
  -- A reconnect fails retryably only when the host is still stored and SSH itself failed in a retryable way, connecting with the host's own configuration and never with host keys unchecked; a host that was removed or cannot be read ends the attempts.
  pub establish-retryable :
      (id : ℕ) (db : Db) (v : V) (window : Option ℕ) (cols rows : ℕ) (e : ReconnectError)
      → establish_saved_host ring texts bools connect id db v window cols rows ≡ err e
      → e.retryable ≡ true
      → (host : Host) × (s : SshError) × (Hosts.get id db ≡ ok (some host))
        × (connect false
              (get_or bools key_hash_known_hosts false db)
              (for_host host (auth_for_host ring host v).methods window)
              cols
              rows
            ≡ err s)
        × (is_retryable s ≡ true)
  unfolding establish_saved_host connect_found from_ssh
  establish-retryable id db v window cols rows e h r = by_answer (Hosts.get id db) refl h
    where
      err-injective :
          {a b : ReconnectError} → ◌≡◌ {A = Result {0, 0} ReconnectError T} (err a) (err b) → a ≡ b
      err-injective q = cc

      by_connect :
          (host : Host) (c : Result {0, 0} SshError T)
          → ◌≡◌ {A = Result {0, 0} ReconnectError T}
              (elim c [ err x ↦ err (from_ssh texts x) | ok t ↦ ok t ])
              (err e)
          → (s : SshError) × (c ≡ err s) × (is_retryable s ≡ true)
      by_connect host (err x) q = (x, refl, ap (λ y. y.retryable) (err-injective q) ∙ r)
      by_connect host (ok t) q = cc

      by_answer :
          (a : Result {0, 0} StoreError (Option Host))
          → Hosts.get id db ≡ a
          → connect_found ring texts bools connect
              (get_or bools key_hash_known_hosts false db)
              id
              a
              v
              window
              cols
              rows
            ≡ err e
          → (host : Host) × (s : SshError) × (Hosts.get id db ≡ ok (some host))
            × (connect false
                  (get_or bools key_hash_known_hosts false db)
                  (for_host host (auth_for_host ring host v).methods window)
                  cols
                  rows
                ≡ err s)
            × (is_retryable s ≡ true)
      by_answer (err x) k q = absurd (false≢true (ap (λ y. y.retryable) (err-injective q) ∙ r))
      by_answer (ok none) k q = absurd (false≢true (ap (λ y. y.retryable) (err-injective q) ∙ r))
      by_answer (ok (some host)) k q = let (s, c, t) = by_connect host _ q in (host, s, k, c, t)
