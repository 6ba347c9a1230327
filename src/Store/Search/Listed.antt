-- ===== src/Store/Search/Listed.antt =====
-- Which hosts a search lists: `list` of crates/core-store/src/hosts.rs.
use tern.Prelude.{
  ℕ, ◌≡◌, refl, sym, ap, ◌∙◌, ◌↔◌, ◌⊎◌, inl, inr, Bool, true, false, false≢true, ◌&&◌, ◌||◌, Option,
  none, some, List, [], ◌∷◌, Text, nat_beq, nat_beq_iff, any, All, Exists, any-filter, any-sort_by,
  filter, sort_by, is_empty, trim, ok, bind-ok, ok-injective, if◌then◌else◌, arith, Bool-cases,
}
use tern.Store.{Host, HostFilter, Row, HostTag, Db}
use tern.Store.Hosts.{row_to_host}
use tern.Store.Hosts.Read.{row_to_host_ok}
use tern.Store.Search.{
  like, escape_like, asked_for, stands_in, in_folder, has_tags, selected, listed_before, limited,
  read_hosts, list,
}
use tern.Store.Search.Found.{Within, like-escape_like}

-- A search text stands in the name, the host name or the user name; a blank one asks for nothing.
pub Asked : Option Text → Row → Type 0
Asked none row = Unit
Asked (some q) row =
    (trim q ≡ [])
    ⊎ (Within (trim q) row.name ⊎ (Within (trim q) row.hostname ⊎ Within (trim q) row.username))

pub InFolder : Option ℕ → Row → Type 0
InFolder none row = Unit
InFolder (some folder) row = row.folder_id ≡ some folder

-- What a filter asks of a host.
pub Wanted : HostFilter → Db → Row → Type 0
unfolding Asked InFolder
Wanted f db row =
    Asked f.query row
    × (InFolder f.folder_id row
        × All (λ tag. Exists (λ ht. (ht.host_id ≡ row.id) × (ht.tag_id ≡ tag)) db.host_tags)
            f.tag_ids)

any_iff :
    {A : Type 0} (p : A → Bool) (P : A → Type 0)
    → ((x : A) → (p x ≡ true) ↔ P x)
    → (xs : List A) → (any p xs ≡ true) ↔ Exists P xs
any_iff p P h [] = (λ e. absurd (false≢true e), λ e. absurd e)
any_iff p P h (x ∷ xs) =
    let (to, from) = any_iff p P h xs in
    (
      λ e. elim (Bool-cases (p x)) [ inl t ↦ inl ((h x).0 t) | inr n ↦ inr (to (ground arith)) ],
      λ e. elim e [
        | inl q ↦ let t : p x ≡ true = (h x).1 q in ground arith
        | inr q ↦ let t : any p xs ≡ true = from q in ground arith
      ],
    )

both_iff :
    {P Q : Type 0} (a b : Bool) → (a ≡ true) ↔ P → (b ≡ true) ↔ Q → ((a && b) ≡ true) ↔ (P × Q)
both_iff a b (to, from) (to', from') = (
  (λ e. (to (ground arith), to' (ground arith))),
  λ (p, q). let t : a ≡ true = from p in let u : b ≡ true = from' q in ground arith,
)

either_iff :
    {P Q : Type 0} (a b : Bool) → (a ≡ true) ↔ P → (b ≡ true) ↔ Q → ((a || b) ≡ true) ↔ (P ⊎ Q)
either_iff a b (to, from) (to', from') = (
  (λ e. elim (Bool-cases a) [ inl t ↦ inl (to t) | inr n ↦ inr (to' (ground arith)) ]),
  λ e. elim e [
    | inl p ↦ let t : a ≡ true = from p in ground arith
    | inr q ↦ let u : b ≡ true = from' q in ground arith
  ],
)

unless_iff :
    {P Q : Type 0} (a b : Bool)
    → (a ≡ true) ↔ P
    → (b ≡ true) ↔ Q
    → ((if a then true else b) ≡ true) ↔ (P ⊎ Q)
unless_iff true b h k = either_iff true b h k
unless_iff false b h k = either_iff false b h k

is_empty_iff : (t : Text) → (is_empty t ≡ true) ↔ (t ≡ [])
is_empty_iff [] = (λ e. refl, λ e. refl)
is_empty_iff (c ∷ t) = (λ e. absurd (false≢true e), λ e. cc)

asked_for_iff : (query : Option Text) (row : Row) → (asked_for query row ≡ true) ↔ Asked query row
unfolding asked_for Asked trim like escape_like
asked_for_iff none row = (λ e. tt, λ e. refl)
asked_for_iff (some q) row = unless_iff (is_empty (trim q)) _ (is_empty_iff (trim q)) (
    either_iff _ _ (like-escape_like row.name (trim q)) (
      either_iff _ _ (like-escape_like row.hostname (trim q))
        (like-escape_like row.username (trim q))))

stands_in_iff : (o : Option ℕ) (folder : ℕ) → (stands_in o folder ≡ true) ↔ (o ≡ some folder)
stands_in_iff none folder = (λ e. absurd (false≢true e), λ e. cc)
stands_in_iff (some id) folder =
    ((λ e. ap some ((nat_beq_iff id folder).0 e)), λ e. (nat_beq_iff id folder).1 cc)

in_folder_iff :
    (folder : Option ℕ) (row : Row) → (in_folder folder row ≡ true) ↔ InFolder folder row
unfolding InFolder
in_folder_iff none row = (λ e. tt, λ e. refl)
in_folder_iff (some folder) row = stands_in_iff row.folder_id folder

has_tags_iff :
    (tags : List ℕ) (rows : List HostTag) (row : Row)
    → (has_tags tags rows row ≡ true)
      ↔ All (λ tag. Exists (λ ht. (ht.host_id ≡ row.id) × (ht.tag_id ≡ tag)) rows) tags
has_tags_iff [] rows row = (λ e. tt, λ e. refl)
has_tags_iff (tag ∷ tags) rows row =
    both_iff _ _
      (any_iff _ _ (λ ht. both_iff _ _ (nat_beq_iff ht.host_id row.id) (nat_beq_iff ht.tag_id tag))
        rows)
      (has_tags_iff tags rows row)

selected_iff : (f : HostFilter) (db : Db) (row : Row) → (selected f db row ≡ true) ↔ Wanted f db row
unfolding selected Wanted
selected_iff f db row =
    both_iff _ _ (asked_for_iff f.query row)
      (both_iff _ _ (in_folder_iff f.folder_id row) (has_tags_iff f.tag_ids db.host_tags row))

any-read_hosts :
    (db : Db) (id : ℕ) (rows : List Row) (hosts : List Host)
    → read_hosts db rows ≡ ok hosts
    → any (λ h. nat_beq h.id id) hosts ≡ any (λ r. nat_beq r.id id) rows
unfolding read_hosts
any-read_hosts db id [] hosts e = ap (any (λ h. nat_beq h.id id)) (sym (ok-injective e))
any-read_hosts db id (row ∷ rows) hosts e =
    let (host, e1, e') = bind-ok (row_to_host row) _ hosts e in
    let (others, e2, done) = bind-ok (read_hosts db rows) _ hosts e' in
    ap (any (λ h. nat_beq h.id id)) (sym (ok-injective done))
    ∙ ap (λ b. b || any (λ h. nat_beq h.id id) others)
        (ap (λ i. nat_beq i id) (row_to_host_ok row host e1).0)
    ∙ ap (λ b. nat_beq row.id id || b) (any-read_hosts db id rows others e2)

-- A search without a limit lists a host of an id exactly when a stored host of that id stands in the folder that is asked for, carries every tag that is asked for, and has the search text, without the blanks around it, somewhere in its name, host name or user name, but for the case of ASCII letters; `%`, `_` and `\` in the text stand for themselves.
pub list_iff :
    (f : HostFilter) (db : Db) (hosts : List Host) (id : ℕ)
    → list f db ≡ ok hosts
    → f.limit ≡ none
    → Exists (λ h. h.id ≡ id) hosts ↔ Exists (λ row. Wanted f db row × (row.id ≡ id)) db.hosts
unfolding list
list_iff f db hosts id e unlimited =
    let e' : read_hosts db (sort_by listed_before (filter (selected f db) db.hosts)) ≡ ok hosts =
      ap (λ l. read_hosts db (limited l (sort_by listed_before (filter (selected f db) db.hosts))))
        (sym unlimited)
      ∙ e in
    let q : any (λ h. nat_beq h.id id) hosts
        ≡ any (λ r. selected f db r && nat_beq r.id id) db.hosts =
      any-read_hosts db id (sort_by listed_before (filter (selected f db) db.hosts)) hosts e'
      ∙ any-sort_by listed_before (λ r. nat_beq r.id id) (filter (selected f db) db.hosts)
      ∙ any-filter (λ r. nat_beq r.id id) (selected f db) db.hosts in
    let (of_hosts, to_hosts) = any_iff _ _ (λ h. nat_beq_iff h.id id) hosts in
    let (of_rows, to_rows) =
      any_iff _ _ (λ r. both_iff _ _ (selected_iff f db r) (nat_beq_iff r.id id)) db.hosts in
    ((λ x. of_rows (sym q ∙ to_hosts x)), λ x. of_hosts (q ∙ to_rows x))
