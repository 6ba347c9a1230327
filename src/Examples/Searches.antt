-- ===== src/Examples/Searches.antt =====
-- Tests of the search of hosts, and concrete cases of its theorems.
use tern.Prelude.{ℕ, ◌≡◌, ◌↔◌, refl, true, false, none, some, [], ◌∷◌, codes, Exists, ok}
use tern.Store.{Db, Host, HostFilter}
use tern.Store.Hosts
use tern.Store.Hosts.{row_of_draft}
use tern.Store.Hosts.Created.{host_of_draft}
use tern.Store.Search.{list, like}
use tern.Store.Search.Ordered.{list-Listed, Listed, AtMost}
use tern.Store.Search.Listed.{list_iff, Wanted}
use tern.Examples.Stores.{box, one_host}

abbrev in_caps : HostFilter
in_caps = record { query = some (codes " BOX.e "); folder_id = some 2; tag_ids = []; limit = none }

caps_run : list in_caps one_host ≡ ok (host_of_draft box 1 5 ∷ [])
unfolding list row_of_draft tern.Login.Fallbacks.kind_of tern.Login.Fallbacks.as_str Hosts.source_of
    host_of_draft tern.Login.Fallbacks.decode_auth_fallbacks tern.Prelude.split
    tern.Login.Fallbacks.encode_auth_fallbacks tern.Prelude.join
caps_run = refl

-- Each of the special characters stands for itself.
percent_run : list (record in_caps { query = some (codes "b%x") }) one_host ≡ ok []
unfolding list row_of_draft
percent_run = refl

wild_run : like (codes "box") (codes "B_%") ≡ true
unfolding like
wild_run = refl

dangling_run : like (codes "box") (codes "box\\") ≡ false
unfolding like
dangling_run = refl

list_iff_example :
    Exists (λ h. h.id ≡ 1) (host_of_draft box 1 5 ∷ [])
    ↔ Exists (λ row. Wanted in_caps one_host row × (row.id ≡ 1)) one_host.hosts
list_iff_example = list_iff in_caps one_host (host_of_draft box 1 5 ∷ []) 1 caps_run refl

-- A host that never was connected, and one that was.
abbrev two_hosts : Db
two_hosts = record one_host {
  hosts = row_of_draft box 1 5 ∷ record (row_of_draft box 2 6) { last_connected_at = some 9 } ∷ [];
}

abbrev latest : Host
latest = record (host_of_draft box 2 6) { last_connected_at = some 9 }

abbrev everything : HostFilter
everything = record { query = none; folder_id = none; tag_ids = []; limit = some 5 }

order_run : list everything two_hosts ≡ ok (latest ∷ host_of_draft box 1 5 ∷ [])
unfolding list row_of_draft tern.Login.Fallbacks.kind_of tern.Login.Fallbacks.as_str Hosts.source_of
    host_of_draft tern.Login.Fallbacks.decode_auth_fallbacks tern.Prelude.split
    tern.Login.Fallbacks.encode_auth_fallbacks tern.Prelude.join
order_run = refl

limit_run : list (record everything { limit = some 1 }) two_hosts ≡ ok (latest ∷ [])
unfolding list row_of_draft tern.Login.Fallbacks.kind_of tern.Login.Fallbacks.as_str Hosts.source_of
    host_of_draft tern.Login.Fallbacks.decode_auth_fallbacks tern.Prelude.split
    tern.Login.Fallbacks.encode_auth_fallbacks tern.Prelude.join
limit_run = refl

list-Listed_example :
    Listed (latest ∷ host_of_draft box 1 5 ∷ [])
    × AtMost (some 5) (latest ∷ host_of_draft box 1 5 ∷ [])
list-Listed_example =
    list-Listed everything two_hosts (latest ∷ host_of_draft box 1 5 ∷ []) order_run
