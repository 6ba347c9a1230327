-- ===== src/Store/Search.antt =====
-- The list of hosts: `list` of crates/core-store/src/hosts.rs, with the query that it builds read as
-- SQL documents it, the ESCAPE of LIKE included.
use tern.Prelude.{
  ℕ, ◌+◌, Bool, true, false, not, ◌&&◌, ◌||◌, Option, none, some, List, [], ◌∷◌, ◌++◌, Text, codes,
  leb, ltb, nat_beq, map, filter, any, contains, take, is_empty, trim, to_ascii_lowercase,
  text_before, sort_by, if◌then◌else◌, ◌==◌, list_eq, nat_eq, Result, ok, err, ◌>>=◌,
}
use tern.Store.{Host, HostFilter, Row, HostTag, Db, StoreError}
use tern.Store.Hosts.{row_to_host, tags_for}
pub mod Found
pub mod Listed
pub mod Ordered

-- What a LIKE pattern asks for, piece by piece; a pattern that ends in the escape matches nothing.
pub data LikePiece : Type 0 where
  any_run any_one dangling_escape : LikePiece
  literal : ℕ → LikePiece

abbrev pub piece_of : ℕ → LikePiece
piece_of c = if nat_beq c b'%' then any_run else if nat_beq c b'_' then any_one else literal c

-- `LIKE pattern ESCAPE '\'`; `escaped` behind the escape.
unfoldable pub like_pieces : (escaped : Bool) → Text → List LikePiece
like_pieces false [] = []
like_pieces true [] = dangling_escape ∷ []
like_pieces true (c ∷ pattern) = literal c ∷ like_pieces false pattern
like_pieces false (c ∷ pattern) =
    let behind = like_pieces true pattern in
    let rest = like_pieces false pattern in if nat_beq c 92 then behind else piece_of c ∷ rest

-- Letters of ASCII match in either case.
abbrev pub fold : ℕ → ℕ
fold c = if leb 65 c && leb c 90 then c + 32 else c

unfoldable pub at_some_suffix : (Text → Bool) → Text → Bool
at_some_suffix f [] = f []
at_some_suffix f (c ∷ s) = f (c ∷ s) || at_some_suffix f s

abbrev pub behind_one : (ℕ → Bool) → (Text → Bool) → Text → Bool
behind_one p f [] = false
behind_one p f (c ∷ s) = p c && f s

unfoldable pub like_from : List LikePiece → Text → Bool
unfolding at_some_suffix
like_from [] s = is_empty s
like_from (any_run ∷ ps) s = at_some_suffix (like_from ps) s
like_from (any_one ∷ ps) s = behind_one (λ c. true) (like_from ps) s
like_from (dangling_escape ∷ ps) s = false
like_from (literal d ∷ ps) s = behind_one (λ c. nat_beq (fold c) (fold d)) (like_from ps) s

unfoldable pub like : (value pattern : Text) → Bool
unfolding like_pieces like_from
like value pattern = like_from (like_pieces false pattern) value

unfoldable pub escape_like : Text → Text
escape_like [] = []
escape_like (c ∷ input) =
    let rest = escape_like input in
    if nat_beq c b'%' || nat_beq c b'_' || nat_beq c 92 then 92 ∷ c ∷ rest else c ∷ rest

-- The condition of the query, which a blank one leaves out.
unfoldable pub asked_for : Option Text → Row → Bool
unfolding like escape_like trim
asked_for none row = true
asked_for (some q) row =
    let pattern : Text = b'%' ∷ escape_like (trim q) ++ b'%' ∷ [] in
    if is_empty (trim q)
    then true
    else like row.name pattern || (like row.hostname pattern || like row.username pattern)

-- `folder_id = ?`, which NULL does not satisfy.
abbrev pub stands_in : Option ℕ → ℕ → Bool
stands_in none folder = false
stands_in (some id) folder = nat_beq id folder

abbrev pub in_folder : Option ℕ → Row → Bool
in_folder none row = true
in_folder (some folder) row = stands_in row.folder_id folder

-- One EXISTS per tag.
abbrev pub has_tags : List ℕ → List HostTag → Row → Bool
has_tags [] rows row = true
has_tags (tag ∷ tags) rows row =
    any (λ ht. nat_beq ht.host_id row.id && nat_beq ht.tag_id tag) rows && has_tags tags rows row

unfoldable pub selected : HostFilter → Db → Row → Bool
unfolding asked_for
selected f db row =
    asked_for f.query row && (in_folder f.folder_id row && has_tags f.tag_ids db.host_tags row)

-- `COLLATE NOCASE`
abbrev pub nocase_before : Text → Text → Bool
nocase_before a b = text_before (to_ascii_lowercase a) (to_ascii_lowercase b)

-- `last_connected_at DESC NULLS LAST`, then the name.
abbrev pub keys_before : (t : Option ℕ) (a : Text) (u : Option ℕ) (b : Text) → Bool
keys_before (some t) a none b = true
keys_before none a (some u) b = false
keys_before none a none b = nocase_before a b
keys_before (some t) a (some u) b =
    if ltb u t then true else if nat_beq t u then nocase_before a b else false

abbrev pub listed_before : Row → Row → Bool
listed_before a b = keys_before a.last_connected_at a.name b.last_connected_at b.name

abbrev pub limited : Option ℕ → List Row → List Row
limited none rows = rows
limited (some n) rows = take n rows

unfoldable pub read_hosts : Db → List Row → Result {0, 0} StoreError (List Host)
unfolding row_to_host tags_for
read_hosts db [] = ok []
read_hosts db (row ∷ rows) = do
  host ← row_to_host row
  hosts ← read_hosts db rows
  ok (record host { tags = tags_for db.host_tags host.id } ∷ hosts)

unfoldable pub list : HostFilter → Db → Result {0, 0} StoreError (List Host)
unfolding selected sort_by read_hosts
list f db =
    read_hosts db (limited f.limit (sort_by listed_before (filter (selected f db) db.hosts)))
