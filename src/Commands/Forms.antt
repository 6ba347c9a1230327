-- ===== src/Commands/Forms.antt =====
-- The form of a host, filled and saved: apps/desktop/src/store_commands.rs.
use tern.Prelude.{◌≡◌, refl, ap₂, some, List, [], ◌∷◌, Text, map}
use tern.Store.{AuthKind, agent_kind, key_file_kind, password_kind, Host}
use tern.Commands.{auth_kind, auth_kind_dto, overrides, overrides_dto, host_dto, edited}

auth_kind-dto : (k : AuthKind) → auth_kind (auth_kind_dto k) ≡ k
unfolding auth_kind auth_kind_dto
auth_kind-dto agent_kind = refl
auth_kind-dto key_file_kind = refl
auth_kind-dto password_kind = refl

map-auth_kind-dto : (ks : List AuthKind) → map auth_kind (map auth_kind_dto ks) ≡ ks
map-auth_kind-dto [] = refl
map-auth_kind-dto (k ∷ ks) = ap₂ ◌∷◌ (auth_kind-dto k) (map-auth_kind-dto ks)

-- The form shows a host with a credential the same whatever account the credential is kept under, and saving the form as it was filled changes nothing of the host, its account included.
pub edited-host_dto :
    (h : Host)
    → (edited (host_dto h) h ≡ h)
      × ((a b : Text)
          → host_dto (record h { secret_ref = some a })
            ≡ host_dto (record h { secret_ref = some b }))
unfolding edited host_dto overrides overrides_dto
edited-host_dto h = (
  ap₂ (λ k ks. record h { auth = k; auth_fallbacks = ks }) (auth_kind-dto h.auth)
      (map-auth_kind-dto h.auth_fallbacks),
  λ a b. refl,
)
