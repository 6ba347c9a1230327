-- ===== src/Examples/Forms.antt =====
-- Tests of the commands, and concrete cases of the theorems on them.
use tern.Prelude.{
  ℕ, ◌≡◌, refl, sym, ap, Option, none, some, List, [], ◌∷◌, Text, codes, Result, ok, err,
  if◌then◌else◌, ◌==◌, list_eq, nat_eq, ◌⊎◌,
}
use tern.Store.{Host}
use tern.Store.Hosts
use tern.Store.Hosts.{host_keys, row_of_draft}
use tern.Store.Hosts.Created.{host_of_draft}
use tern.Login.Credentials.{Keyring, account_for, secret_of}
use tern.Commands.{HostDto, set_secret_dto, host_dto, edited}
use tern.Commands.Forms.{edited-host_dto}
use tern.Commands.Hosts.{World, update_host}
use tern.Commands.Secrets.{update_host-set}
use tern.Examples.Sessions.{saved}
use tern.Examples.Stores.{box, one_host}

edited-host_dto_example :
    (edited (host_dto saved) saved ≡ saved)
    × ((a b : Text)
        → host_dto (record saved { secret_ref = some a })
          ≡ host_dto (record saved { secret_ref = some b }))
edited-host_dto_example = edited-host_dto saved

-- A keyring with one place, which holds what was last put there.
abbrev one_place : Keyring Text
one_place = record {
  get_password = λ account v. ok v;
  set_password = λ account password v. (ok tt, password);
  delete = λ account v. (ok tt, v);
}

one_place_remembers :
    (account secret : Text) (v v' : Text)
    → one_place.set_password account secret v ≡ (ok tt, v')
    → one_place.get_password account v' ≡ ok secret
one_place_remembers account secret v v' e = ap (λ p. ok p.1) (sym e)

abbrev world : World Text
world = record { db = one_host; ring = [] }

abbrev form : HostDto
form = host_dto (host_of_draft box 1 5)

abbrev changed : World Text
changed = (update_host one_place 9 form (set_secret_dto (codes "pw")) world).1

update_run : update_host one_place 9 form (set_secret_dto (codes "pw")) world ≡ (ok tt, changed)
unfolding update_host Hosts.get row_of_draft host_dto host_of_draft tern.Login.Fallbacks.kind_of
    tern.Login.Fallbacks.as_str Hosts.source_of Hosts.update Hosts.set_tags account_for
    tern.Login.Fallbacks.decode_auth_fallbacks tern.Prelude.split
    tern.Login.Fallbacks.encode_auth_fallbacks tern.Prelude.join tern.Prelude.trim
update_run = refl

update_host-set_example :
    (h : Host) × (Hosts.get form.id changed.db ≡ ok (some h))
    × ((account_for h ≡ none)
        ⊎ (secret_of one_place h.secret_ref changed.ring ≡ (some (codes "pw"), none)))
update_host-set_example =
    update_host-set one_place one_place_remembers 9 form (codes "pw") world changed update_run
