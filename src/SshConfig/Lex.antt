-- ===== src/SshConfig/Lex.antt =====
-- The tokenizer of OpenSSH client configs: crates/core-store/src/ssh_config/lex.rs.
pub mod RoundTrip
use tern.Prelude.{
  ℕ, ◌+◌, Bool, true, false, not, ◌&&◌, ◌||◌, Option, none, some, List, [], ◌∷◌, ◌++◌, Text,
  nat_beq, is_empty, is_whitespace, lines, if◌then◌else◌,
}

pub record Directive : Type 0 where
  pub line : ℕ
  pub keyword : Text
  pub args : List Text

-- The variables of `split_fields`.
pub record Fields : Type 0 where
  pub out : List Text
  pub current : Text
  pub in_quotes : Bool
  pub separator_used : Bool

abbrev pub no_fields : Fields
no_fields = record { out = []; current = []; in_quotes = false; separator_used = false }

-- `out.push(std::mem::take(&mut current))`
pub push_current : Fields → Fields
push_current st = record st { out = st.out ++ st.current ∷ []; current = [] }

-- `'"'`: the flag has been turned already; an empty quoted argument is pushed.
pub quote : Fields → Fields
quote st =
    if not st.in_quotes && is_empty st.current
    then record st { out = st.out ++ [] ∷ []; separator_used = true }
    else st

abbrev pub is_single : List Text → Bool
is_single (x ∷ []) = true
is_single _ = false

-- The guards of the two arms on `=`.
pub spaced_equals : Fields → Bool
spaced_equals st =
    not st.in_quotes && not st.separator_used && is_single st.out && is_empty st.current

pub direct_equals : Fields → Bool
direct_equals st =
    not st.in_quotes && not st.separator_used && is_empty st.out && not (is_empty st.current)

pub whitespace : Fields → Fields
unfolding push_current
whitespace st = if is_empty st.current then st else push_current st

pub ordinary : Fields → ℕ → Fields
ordinary st c = record st { current = st.current ++ c ∷ [] }

-- The arms from the whitespace on.
pub plain_char : Fields → ℕ → Fields
unfolding whitespace ordinary
plain_char st c = if is_whitespace c && not st.in_quotes then whitespace st else ordinary st c

pub equals_char : Fields → Fields
unfolding spaced_equals direct_equals plain_char push_current
equals_char st =
    if spaced_equals st
    then record st { separator_used = true }
    else if direct_equals st
    then record (push_current st) { separator_used = true }
    else plain_char st b'='

-- One round of the loop: `none` is the `break` at a comment.
unfoldable pub field_char : Fields → ℕ → Option Fields
unfolding quote equals_char plain_char
field_char st c =
    if nat_beq c b'"'
    then some (quote (record st { in_quotes = not st.in_quotes }))
    else if nat_beq c b'#' && not st.in_quotes
    then none
    else if nat_beq c b'='
    then some (equals_char st)
    else some (plain_char st c)

-- What follows the loop.
unfoldable pub finish : Fields → List Text
finish st = if is_empty st.current then st.out else st.out ++ st.current ∷ []

unfoldable pub fields_loop : Fields → Text → List Text
fields_loop st [] = finish st
fields_loop st (c ∷ s) = elim (field_char st c) [
  | none ↦ finish st
  | some next ↦ fields_loop next s
]

unfoldable pub split_fields : Text → List Text
unfolding fields_loop field_char finish
split_fields raw = fields_loop no_fields raw

-- `str::to_lowercase`, which follows the Unicode tables.
module _ (to_lowercase : Text → Text) where
  -- `fields.remove(0).to_lowercase()`, with the tests before and after it.
  pub directive_of : List Text → Option (Text × List Text)
  directive_of [] = none
  directive_of (first ∷ rest) =
      if is_empty (to_lowercase first) then none else some (to_lowercase first, rest)

  unfoldable pub tokenize_line : Text → Option (Text × List Text)
  unfolding split_fields directive_of
  tokenize_line raw = directive_of (split_fields raw)

  -- The directives of the lines from `line` on.
  unfoldable pub number_directives : ℕ → List Text → List Directive
  unfolding tokenize_line
  number_directives line [] = []
  number_directives line (raw ∷ rest) =
      let later = number_directives (line + 1) rest in
      elim (tokenize_line raw) [
        | none ↦ later
        | some (keyword, args) ↦ record { line = line; keyword = keyword; args = args } ∷ later
      ]

  unfoldable pub tokenize : Text → List Directive
  unfolding number_directives
  tokenize input = number_directives 1 (lines input)
