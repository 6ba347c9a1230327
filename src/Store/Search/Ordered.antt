-- ===== src/Store/Search/Ordered.antt =====
-- The order of a search and its limit: `list` of crates/core-store/src/hosts.rs.
use tern.Prelude.{
  ℕ, ◌≡◌, ◌≤◌, ◌<◌, ◌⊎◌, inl, inr, refl, sym, ap, ap₂, ◌∙◌, subst, true, false, Option, none, some,
  List, [], ◌∷◌, Text, take, length, filter, sort_by-InOrder, NotBefore, InOrder, text_before,
  text_before-asymmetric, to_ascii_lowercase, nat_beq, nat_beq_iff, Bool-cases, zero, suc, ok,
  bind-ok, ok-injective, arith,
}
use tern.Store.{Host, HostFilter, Row, Db}
use tern.Store.Hosts.{row_to_host, converted, source_of}
use tern.Login.Fallbacks.{kind_of}
use tern.Store.Search.{
  keys_before, nocase_before, listed_before, limited, selected, read_hosts, list,
}

-- The later connection comes first, what was never connected last, and names decide a tie, but for the case of
-- their ASCII letters.
pub Comes : (t : Option ℕ) (a : Text) (u : Option ℕ) (b : Text) → Type 0
Comes (some t) a none b = Unit
Comes none a (some u) b = ⊥
Comes none a none b = text_before (to_ascii_lowercase b) (to_ascii_lowercase a) ≡ false
Comes (some t) a (some u) b =
    (u < t) ⊎ ((t ≡ u) × (text_before (to_ascii_lowercase b) (to_ascii_lowercase a) ≡ false))

-- Each host comes rightly before the next.
abbrev pub Follows : Host → List Host → Type 0
Follows h [] = Unit
Follows h (k ∷ hosts) = Comes h.last_connected_at h.name k.last_connected_at k.name

abbrev pub Listed : List Host → Type 0
Listed [] = Unit
Listed (h ∷ hosts) = Follows h hosts × Listed hosts

abbrev pub AtMost : Option ℕ → List Host → Type 0
AtMost none hosts = Unit
AtMost (some n) hosts = length hosts ≤ n

keys_before-asymmetric :
    (t : Option ℕ) (a : Text) (u : Option ℕ) (b : Text)
    → keys_before t a u b ≡ true
    → keys_before u b t a ≡ false
keys_before-asymmetric none a none b h =
    text_before-asymmetric (to_ascii_lowercase a) (to_ascii_lowercase b) h
keys_before-asymmetric none a (some u) b h = cc
keys_before-asymmetric (some t) a none b h = refl
keys_before-asymmetric (some t) a (some u) b h =
    let ih : nocase_before a b ≡ true → nocase_before b a ≡ false =
      text_before-asymmetric (to_ascii_lowercase a) (to_ascii_lowercase b) in
    ground arith

keys_before-Comes :
    (t : Option ℕ) (a : Text) (u : Option ℕ) (b : Text)
    → keys_before u b t a ≡ false
    → Comes t a u b
unfolding Comes
keys_before-Comes none a none b h = h
keys_before-Comes none a (some u) b h = cc
keys_before-Comes (some t) a none b h = tt
keys_before-Comes (some t) a (some u) b h = elim (Bool-cases (nat_beq u t)) [
  | inl e ↦ inr (sym ((nat_beq_iff u t).0 e), ground arith)
  | inr n ↦ inl (ground arith)
]

NotBefore-take :
    (n : ℕ) (x : Row) (rows : List Row)
    → NotBefore listed_before x rows
    → NotBefore listed_before x (take n rows)
NotBefore-take zero x rows h = tt
NotBefore-take (suc n) x [] h = tt
NotBefore-take (suc n) x (y ∷ rows) h = h

InOrder-take :
    (n : ℕ) (rows : List Row) → InOrder listed_before rows → InOrder listed_before (take n rows)
InOrder-take zero rows o = tt
InOrder-take (suc n) [] o = tt
InOrder-take (suc n) (x ∷ rows) (h, o) = (NotBefore-take n x rows h, InOrder-take n rows o)

InOrder-limited :
    (limit : Option ℕ) (rows : List Row)
    → InOrder listed_before rows
    → InOrder listed_before (limited limit rows)
InOrder-limited none rows o = o
InOrder-limited (some n) rows o = InOrder-take n rows o

length-take_le : (n : ℕ) (rows : List Row) → length (take n rows) ≤ n
length-take_le zero rows = omega arith
length-take_le (suc n) [] = omega arith
length-take_le (suc n) (x ∷ rows) =
    let ih : length (take n rows) ≤ n = length-take_le n rows in omega arith

row_to_host-keys :
    (row : Row) (h : Host)
    → row_to_host row ≡ ok h
    → (h.last_connected_at ≡ row.last_connected_at) × (h.name ≡ row.name)
unfolding row_to_host
row_to_host-keys row h e =
    let (auth, e1, e') = bind-ok (converted row.auth_method (kind_of row.auth_method)) _ h e in
    let (source, e2, done) = bind-ok (converted row.source (source_of row.source)) _ h e' in
    (
      ap (λ x. x.last_connected_at) (sym (ok-injective done)),
      ap (λ x. x.name) (sym (ok-injective done)),
    )

-- The hosts that were read have the keys of their rows, one for one.
SameKeys : List Host → List Row → Type 0
SameKeys [] [] = Unit
SameKeys [] (row ∷ rows) = ⊥
SameKeys (h ∷ hosts) [] = ⊥
SameKeys (h ∷ hosts) (row ∷ rows) =
    ((h.last_connected_at ≡ row.last_connected_at) × (h.name ≡ row.name)) × SameKeys hosts rows

read_hosts-SameKeys :
    (db : Db) (rows : List Row) (hosts : List Host)
    → read_hosts db rows ≡ ok hosts
    → SameKeys hosts rows
unfolding read_hosts SameKeys
read_hosts-SameKeys db [] hosts e = subst (λ hs. SameKeys hs []) (ok-injective e) tt
read_hosts-SameKeys db (row ∷ rows) hosts e =
    let (host, e1, e') = bind-ok (row_to_host row) _ hosts e in
    let (others, e2, done) = bind-ok (read_hosts db rows) _ hosts e' in
    subst (λ hs. SameKeys hs (row ∷ rows)) (ok-injective done)
      (row_to_host-keys row host e1, read_hosts-SameKeys db rows others e2)

SameKeys-Listed :
    (hosts : List Host) (rows : List Row)
    → SameKeys hosts rows
    → InOrder listed_before rows
    → Listed hosts
unfolding SameKeys
SameKeys-Listed [] rows s o = tt
SameKeys-Listed (h ∷ hosts) [] s o = absurd s
SameKeys-Listed (h ∷ []) (row ∷ rows) s o = (tt, tt)
SameKeys-Listed (h ∷ k ∷ hosts) (row ∷ []) s o = absurd s.1
SameKeys-Listed (h ∷ k ∷ hosts) (row ∷ next ∷ rows) (same, rest) (first, o) = (
  keys_before-Comes h.last_connected_at h.name k.last_connected_at k.name (
      ap₂ (λ t a. keys_before k.last_connected_at k.name t a) same.0 same.1
      ∙ ap₂ (λ t a. keys_before t a row.last_connected_at row.name) rest.0.0 rest.0.1
      ∙ first),
  SameKeys-Listed (k ∷ hosts) (next ∷ rows) rest o,
)

SameKeys-length :
    (hosts : List Host) (rows : List Row) → SameKeys hosts rows → length hosts ≡ length rows
unfolding SameKeys
SameKeys-length [] [] s = refl
SameKeys-length [] (row ∷ rows) s = absurd s
SameKeys-length (h ∷ hosts) [] s = absurd s
SameKeys-length (h ∷ hosts) (row ∷ rows) (same, rest) =
    let ih : length hosts ≡ length rows = SameKeys-length hosts rows rest in omega arith

SameKeys-AtMost :
    (limit : Option ℕ) (rows : List Row) (hosts : List Host)
    → SameKeys hosts (limited limit rows)
    → AtMost limit hosts
SameKeys-AtMost none rows hosts s = tt
SameKeys-AtMost (some n) rows hosts s =
    let q : length hosts ≡ length (take n rows) = SameKeys-length hosts (take n rows) s in
    let l : length (take n rows) ≤ n = length-take_le n rows in omega arith

-- A search lists hosts from the latest connection to the earliest and then those that were never connected, a tie by name but for the case of ASCII letters, and no more of them than the limit.
pub list-Listed :
    (f : HostFilter) (db : Db) (hosts : List Host)
    → list f db ≡ ok hosts
    → Listed hosts × AtMost f.limit hosts
unfolding list
list-Listed f db hosts e =
    let s = read_hosts-SameKeys db _ hosts e in
    (
      SameKeys-Listed hosts _ s (
          InOrder-limited f.limit _ (
            sort_by-InOrder listed_before
              (λ x y. keys_before-asymmetric x.last_connected_at x.name y.last_connected_at y.name)
              (filter (selected f db) db.hosts))),
      SameKeys-AtMost f.limit _ hosts s,
    )
