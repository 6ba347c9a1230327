-- ===== src/Store/Settings.antt =====
-- The settings of the store: crates/core-store/src/settings.rs. JSON is the crate `serde_json`.
use tern.Prelude.{
  ℕ, ◌≡◌, refl, sym, ap, ◌∙◌, true, false, not, Option, none, some, List, [], ◌∷◌, Text, map,
  filter, if◌then◌else◌, ◌==◌, list_eq, nat_eq, Result, ok, err, sort_by, text_before, list_beq_iff,
  ok-injective, Bool-cases, inl, inr, arith,
}
use tern.Store.{StoreError, json, Setting, Db}

-- The serialized form of the values of a type.
pub record Json (T : Type 0) : Type 0 where
  pub to_string : T → Option Text
  pub from_str : Text → Option T

-- `SELECT value FROM settings WHERE key = ?1`
unfoldable pub value_of : List Setting → Text → Option Text
value_of [] key = none
value_of (s ∷ rows) key =
    let rest = value_of rows key in if s.key == key then some s.value else rest

-- `INSERT .. ON CONFLICT(key) DO UPDATE`
unfoldable pub upsert : Setting → List Setting → List Setting
upsert new [] = new ∷ []
upsert new (s ∷ rows) =
    let rest = upsert new rows in if s.key == new.key then new ∷ rows else s ∷ rest

module _ {T : Type 0} (codec : Json T) where
  -- What is made of the value that a query found.
  unfoldable pub decoded : Option Text → Result {0, 0} StoreError (Option T)
  decoded none = ok none
  decoded (some raw) = elim (codec.from_str raw) [ none ↦ err json | some value ↦ ok (some value) ]

  unfoldable pub get : Text → Db → Result {0, 0} StoreError (Option T)
  unfolding decoded value_of
  get key db = decoded (value_of db.settings key)

  -- `.unwrap_or(None).unwrap_or(default)`
  unfoldable pub or_default : T → Result {0, 0} StoreError (Option T) → T
  or_default default (ok (some value)) = value
  or_default default _ = default

  unfoldable pub get_or : Text → T → Db → T
  unfolding get or_default
  get_or key default db = or_default default (get key db)

  unfoldable pub set : Text → T → (now : ℕ) → Db → Result {0, 0} StoreError Db
  unfolding upsert
  set key value now db = elim (codec.to_string value) [
    | none ↦ err json
    | some text ↦ ok (record db {
      settings = upsert (record { key = key; value = text; updated_at = now }) db.settings;
    })
  ]

unfoldable pub delete : Text → Db → Db
delete key db = record db { settings = filter (λ s. not (s.key == key)) db.settings }

unfoldable pub all_raw : Db → List (Text × Text)
unfolding sort_by text_before
all_raw db = map (λ s. (s.key, s.value)) (sort_by (λ s t. text_before s.key t.key) db.settings)

value_of-upsert_itself :
    (new : Setting) (rows : List Setting) → value_of (upsert new rows) new.key ≡ some new.value
unfolding value_of upsert
value_of-upsert_itself new [] = rw ((list_beq_iff new.key new.key).1 refl) refl
value_of-upsert_itself new (s ∷ rows) =
    let ih : value_of (upsert new rows) new.key ≡ some new.value =
      value_of-upsert_itself new rows in
    let same : (new.key == new.key) ≡ true = (list_beq_iff new.key new.key).1 refl in ground arith

value_of-upsert_other :
    (new : Setting) (rows : List Setting) (key : Text)
    → (new.key == key) ≡ false
    → value_of (upsert new rows) key ≡ value_of rows key
unfolding value_of upsert
value_of-upsert_other new [] key n = rw n refl
value_of-upsert_other new (s ∷ rows) key n =
    let ih : value_of (upsert new rows) key ≡ value_of rows key =
      value_of-upsert_other new rows key n in
    elim (Bool-cases (s.key == new.key)) [
      | inl t ↦
          let q : (s.key == key) ≡ (new.key == key) =
            ap (λ k. k == key) ((list_beq_iff s.key new.key).0 t) in
          ground arith
      | inr f ↦ ground arith
    ]

unlike_text : (a b : Text) → ¬ (a ≡ b) → (a == b) ≡ false
unlike_text a b n = elim (Bool-cases (a == b)) [
  | inl t ↦ absurd (n ((list_beq_iff a b).0 t))
  | inr f ↦ f
]

module _ {T : Type 0} (codec : Json T)
    (reads : (value : T) (text : Text)
      → codec.to_string value ≡ some text
      → codec.from_str text ≡ some value) where
  stored :
      (key : Text) (value : T) (now : ℕ) (db db' : Db) (o : Option Text)
      → codec.to_string value ≡ o
      → ◌≡◌ {A = Result {0, 0} StoreError Db}
          (elim o [
            | none ↦ err json
            | some text ↦ ok (record db {
              settings = upsert (record { key = key; value = text; updated_at = now }) db.settings;
            })
          ])
          (ok db')
      → (text : Text) × (codec.from_str text ≡ some value)
        × (db' ≡ record db {
          settings = upsert (record { key = key; value = text; updated_at = now }) db.settings;
        })
  stored key value now db db' none e h = cc
  stored key value now db db' (some text) e h = (text, reads value text e, sym (ok-injective h))

  decoded-back :
      (text : Text) (value : T)
      → codec.from_str text ≡ some value
      → decoded codec (some text) ≡ ok (some value)
  unfolding decoded
  decoded-back text value e = rw (e, decoded) refl

  -- Where the serialized form of a value is read back as that value: a setting that is set is read under its key, by `get` and in place of the default by `get_or`, and under every other key what was read before.
  pub get-set :
      (key : Text) (value : T) (now : ℕ) (db db' : Db)
      → set codec key value now db ≡ ok db'
      → (get codec key db' ≡ ok (some value))
        × ((default : T) → get_or codec key default db' ≡ value)
        × ((other : Text) → ¬ (key ≡ other) → get codec other db' ≡ get codec other db)
  unfolding get get_or or_default set
  get-set key value now db db' h =
      let (text, back, done) = stored key value now db db' (codec.to_string value) refl h in
      let read : value_of db'.settings key ≡ some text =
        ap (λ d. value_of d.settings key) done
        ∙ value_of-upsert_itself (record { key = key; value = text; updated_at = now })
            db.settings in
      let got : get codec key db' ≡ ok (some value) =
        ap (decoded codec) read ∙ decoded-back text value back in
      (
        got,
        (λ default. ap (or_default codec default) got),
        (λ other n. ap (decoded codec) (
            ap (λ d. value_of d.settings other) done
            ∙ value_of-upsert_other (record { key = key; value = text; updated_at = now })
                db.settings other (unlike_text key other n))),
      )
