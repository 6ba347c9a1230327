-- ===== src/Examples/Records.antt =====
-- Tests of tags, settings, migrations and imports, and concrete cases of the theorems on them.
use tern.Prelude.{
  ℕ, suc, ◌+◌, ◌≡◌, refl, sym, Bool, true, false, Option, none, some, List, [], ◌∷◌, ◌++◌, Text,
  codes, length, Distinct, trim, to_ascii_lowercase, nat_eq, Result, ok, err,
}
use tern.Store.{
  HostOverrides, Host, Db, Row, Tag, Setting, SqliteError, unique, agent_kind, StoreError, sqlite,
  schema_ahead, manual, NewHost,
}
use tern.Store.Rows.{ids, row_of}
use tern.Store.Hosts.{host_keys, row_of_draft}
use tern.Store.Tags.{get_or_create, get_or_create-again}
use tern.Store.Settings.{Json, set, get, get_or, get-set}
use tern.Store.Migrate.{Migration, Database, migrations, run, applied_version}
use tern.SshConfig.Import.{
  Candidate, new_host, no_overrides, no_outcome, apply, draft_of, ImportOutcome,
}
use tern.SshConfig.Import.Outcomes.{apply-again}
use tern.SshConfig.Import.Manual.{apply-leaves}

abbrev nothing : Db
nothing = record { folders = []; hosts = []; tags = []; host_tags = []; settings = [] }

abbrev prod_tag : Db
prod_tag = record nothing {
  tags = record { id = 1; name = codes "Prod"; color = none; created_at = 5 } ∷ [];
}

tag_run : get_or_create (codes " Prod") none 5 nothing ≡ ok (1, prod_tag)
unfolding get_or_create
tag_run = refl

names_run : to_ascii_lowercase (trim (codes "prod ")) ≡ to_ascii_lowercase (trim (codes " Prod"))
unfolding trim to_ascii_lowercase
names_run = refl

get_or_create-again_example :
    get_or_create (codes "prod ") (some (codes "red")) 9 prod_tag ≡ ok (1, prod_tag)
get_or_create-again_example =
    get_or_create-again (codes " Prod") (codes "prod ") none (some (codes "red")) 5 9 nothing 1
      prod_tag tag_run names_run

-- Texts as themselves.
abbrev as_is : Json Text
as_is = record { to_string = λ t. some t; from_str = λ t. some t }

abbrev one_setting : Db
one_setting = record nothing {
  settings = record { key = codes "k"; value = codes "v"; updated_at = 5 } ∷ [];
}

set_run : set as_is (codes "k") (codes "v") 5 nothing ≡ ok one_setting
unfolding set
set_run = refl

get-set_example :
    (get as_is (codes "k") one_setting ≡ ok (some (codes "v")))
    × ((default : Text) → get_or as_is (codes "k") default one_setting ≡ codes "v")
    × ((other : Text)
        → ¬ (codes "k" ≡ other)
        → get as_is other one_setting ≡ get as_is other nothing)
get-set_example =
    get-set as_is (λ value text e. sym e) (codes "k") (codes "v") 5 nothing one_setting set_run

-- A schema that is the texts it was given, without the batch "bad".
abbrev collect : Text → List Text → Result {0, 0} SqliteError (List Text)
collect sql schema = ok (schema ++ sql ∷ [])

abbrev both : List Migration
both = migrations (codes "init") (codes "more")

abbrev unborn : Database (List Text)
unborn = record { schema = []; schema_migrations = none }

migrated_run : applied_version (run collect 7 both unborn).1 ≡ 2
unfolding applied_version run migrations
migrated_run = refl

abbrev web : Candidate
web = record {
  alias = codes "web";
  hostname = codes "web.example";
  port = 22;
  username = [];
  auth = agent_kind;
  key_path = none;
  proxy_jump = none;
  overrides = no_overrides;
  disposition = new_host;
}

abbrev by_hand : Row
by_hand = record (row_of_draft (draft_of web) 1 3) { source = codes "manual" }

abbrev before : Db
before = record nothing { hosts = by_hand ∷ [] }

abbrev after : Db
after = record nothing { hosts = by_hand ∷ row_of_draft (draft_of web) 2 5 ∷ [] }

abbrev later : Db
later = record nothing {
  hosts = by_hand ∷ record (row_of_draft (draft_of web) 2 5) { updated_at = 6 } ∷ [];
}

abbrev first_outcome : ImportOutcome
first_outcome = record { created = 1; updated = 0 }

abbrev second_outcome : ImportOutcome
second_outcome = record { created = 0; updated = 1 }

first_run : apply 5 no_outcome (web ∷ []) before ≡ (ok first_outcome, after)
unfolding apply tern.Store.Hosts.find_by_source_alias tern.Store.Hosts.create
    tern.Store.Hosts.constraints
first_run = refl

second_run : apply 6 no_outcome (web ∷ []) after ≡ (ok second_outcome, later)
unfolding apply tern.Store.Hosts.find_by_source_alias row_of_draft tern.Login.Fallbacks.kind_of
    tern.Login.Fallbacks.as_str tern.Store.Hosts.source_of tern.Store.Hosts.update
    tern.Login.Fallbacks.decode_auth_fallbacks tern.Prelude.split
    tern.Login.Fallbacks.encode_auth_fallbacks trim
second_run = refl

one_id : Distinct (ids before.hosts)
one_id = (refl, tt)

apply-again_example :
    ((first_outcome.created + first_outcome.updated) ≡ length (web ∷ []))
    × (second_outcome.created ≡ 0)
    × (second_outcome.updated ≡ length (web ∷ []))
apply-again_example =
    apply-again 5 6 (web ∷ []) before after later first_outcome second_outcome one_id first_run
      second_run

found_run : row_of before.hosts 1 ≡ some by_hand
unfolding row_of row_of_draft
found_run = refl

apply-leaves_example : row_of (apply 5 no_outcome (web ∷ []) before).1.hosts 1 ≡ some by_hand
apply-leaves_example = apply-leaves 5 no_outcome (web ∷ []) before 1 by_hand one_id found_run refl
