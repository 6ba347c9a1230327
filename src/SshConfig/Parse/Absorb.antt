-- ===== src/SshConfig/Parse/Absorb.antt =====
-- The walk over the directives of a file and its includes: `parse_into`, `absorb`, `apply`.
pub mod Blocks
pub mod Grows
pub mod Once
use tern.Prelude.{
  ℕ, zero, suc, ◌+◌, ◌-◌, Bool, true, false, not, ◌||◌, Option, none, some, List, [], ◌∷◌, ◌++◌,
  Text, codes, ◌==◌, nat_eq, list_eq, PartialEq, if◌then◌else◌, is_empty, filter, contains, join,
  parse_unsigned, strip_prefix,
}
use tern.Glob
use tern.SshConfig.Lex.{Directive, tokenize}
use tern.SshConfig.Parse.{
  Warning, match_unsupported, include_cycle, include_unreadable, unsupported_keyword, Stanza,
  only_patterns, ParsedConfig, no_config, or_else, understood,
}

-- What the parser asks of the file system, the environment, `std::path` and the Unicode tables. `read`
-- and `read_dir` answer `none` on an error; `home` joins the rest of a path to `HOME` or
-- `USERPROFILE`; `to_lowercase` is that of `str`.
pub record Files (P : Type 0) : Type 0 where
  pub canonical : P → P
  pub read : P → Option Text
  pub display : P → Text
  pub parent : P → Option P
  pub path_of : Text → P
  pub is_absolute : P → Bool
  pub join_path : P → P → P
  pub lossy : P → Text
  pub is_file : P → Bool
  pub file_name : P → Option Text
  pub read_dir : P → Option (List P)
  pub sort : List P → List P
  pub home : Text → Option Text
  pub to_lowercase : Text → Text

-- `matches!(.., "yes" | "true" | "on")`
abbrev pub is_yes : Text → Bool
is_yes t = t == codes "yes" || t == codes "true" || t == codes "on"

abbrev pub u16_max : ℕ
u16_max = 65535

abbrev pub u32_max : ℕ
u32_max = 4294967295

-- The variables of the loop of `absorb`, with what it hands on to included files.
pub record State (P : Type 0) : Type 0 where
  pub current : Option Stanza
  pub in_match : Bool
  pub visited : List P
  pub cfg : ParsedConfig

abbrev pub max_include_depth : ℕ
max_include_depth = 16

pub glob_one : Text → Text → Bool
glob_one pattern value = Glob.glob_match pattern value

abbrev pub warn : ParsedConfig → Warning → ParsedConfig
warn cfg w = record cfg { warnings = cfg.warnings ++ w ∷ [] }

-- `flush` on the configuration; the stanza itself is taken.
unfoldable pub flush : Option Stanza → ParsedConfig → ParsedConfig
flush none cfg = cfg
flush (some st) cfg =
    if is_empty st.patterns then cfg else record cfg { stanzas = cfg.stanzas ++ st ∷ [] }

module _ {P : Type 0} (fs : Files P) where
  unfoldable pub expand_tilde : Text → Text
  expand_tilde input = elim (strip_prefix (codes "~/") input) [
    | none ↦ input
    | some rest ↦ elim (fs.home rest) [ none ↦ input | some path ↦ path ]
  ]

  -- The `match` of `apply`. A field that is set keeps its value.
  pub apply_first : Stanza → Text → Text → List Text → Stanza
  unfolding expand_tilde
  apply_first st keyword first args =
      if keyword == codes "hostname"
      then record st { hostname = or_else st.hostname (some first) }
      else if keyword == codes "port"
      then record st { port = or_else st.port (parse_unsigned u16_max first) }
      else if keyword == codes "user"
      then record st { user = or_else st.user (some first) }
      else if keyword == codes "identityfile"
      then record st { identity_file = or_else st.identity_file (some (expand_tilde first)) }
      else if keyword == codes "proxyjump"
      then record st { proxy_jump = or_else st.proxy_jump (some (join (codes ",") args)) }
      else if keyword == codes "serveraliveinterval"
      then record st {
        server_alive_interval = or_else st.server_alive_interval (parse_unsigned u32_max first);
      }
      else if keyword == codes "connecttimeout"
      then record st { connect_timeout = or_else st.connect_timeout (parse_unsigned u32_max first) }
      else if keyword == codes "forwardagent"
      then record st {
        forward_agent = or_else st.forward_agent (some (is_yes (fs.to_lowercase first)));
      }
      else st

  unfoldable pub apply : Stanza → Text → List Text → Stanza
  unfolding apply_first
  apply st keyword [] = st
  apply st keyword (first ∷ rest) = apply_first st keyword first (first ∷ rest)

  abbrev has_name : (Text → Bool) → P → Bool
  has_name p path = elim (fs.file_name path) [ none ↦ false | some n ↦ p n ]

  abbrev or_default : Option Text → Text
  or_default none = []
  or_default (some n) = n

  abbrev entries_like : P → Option (List P) → List P
  entries_like pattern none = []
  entries_like pattern (some entries) =
      fs.sort (
        filter (has_name (glob_one (or_default (fs.file_name pattern))))
          (filter fs.is_file entries))

  unfoldable pub glob_paths : P → List P
  unfolding glob_one
  glob_paths pattern =
      if not (contains (fs.lossy pattern) b'*')
      then if fs.is_file pattern then pattern ∷ [] else []
      else elim (fs.parent pattern) [
        | none ↦ []
        | some dir ↦ entries_like pattern (fs.read_dir dir)
      ]

  -- Each entry of an include is parsed; `parse` is `parse_into` one level deeper.
  unfoldable pub parse_all : (P → State P → State P) → List P → State P → State P
  parse_all parse [] st = st
  parse_all parse (p ∷ ps) st = parse_all parse ps (parse p st)

  abbrev pub included_path : P → Text → P
  included_path base expanded =
      if fs.is_absolute (fs.path_of expanded)
      then fs.path_of expanded
      else fs.join_path base (fs.path_of expanded)

  unfoldable pub include : (P → State P → State P) → P → Text → ℕ → Text → State P → State P
  unfolding parse_all glob_paths expand_tilde
  include parse base file line pattern st =
      elim (glob_paths (included_path base (expand_tilde pattern))) [
        | [] ↦ record st { cfg = warn st.cfg (include_unreadable file line pattern) }
        | p ∷ ps ↦ parse_all parse (p ∷ ps) st
      ]

  unfoldable pub include_each :
      (P → State P → State P) → P → Text → ℕ → List Text → State P → State P
  unfolding include
  include_each parse base file line [] st = st
  include_each parse base file line (pattern ∷ rest) st =
      include_each parse base file line rest (include parse base file line pattern st)

  unfoldable pub host_directive : List Text → State P → State P
  unfolding flush
  host_directive args st = record st {
    cfg = flush st.current st.cfg;
    in_match = false;
    current = some (only_patterns args);
  }

  unfoldable pub match_directive : Text → ℕ → State P → State P
  unfolding flush
  match_directive file line st = record st {
    cfg = warn (flush st.current st.cfg) (match_unsupported file line);
    in_match = true;
    current = none;
  }

  unfoldable pub include_directive :
      (P → State P → State P) → Text → Option P → Directive → State P → State P
  unfolding include_each
  include_directive parse file none d st = record st {
    cfg = warn st.cfg (include_unreadable file d.line (join (codes " ") d.args));
  }
  include_directive parse file (some base) d st = include_each parse base file d.line d.args st

  -- The last arm of `match d.keyword`.
  unfoldable pub setting : Text → Directive → State P → State P
  unfolding apply
  setting file d st = elim st.current [
    | none ↦ st
    | some stanza ↦
        if contains understood d.keyword
        then record st { current = some (apply stanza d.keyword d.args) }
        else record st { cfg = warn st.cfg (unsupported_keyword file d.line d.keyword) }
  ]

  -- One round of the loop of `absorb`.
  unfoldable pub directive :
      (P → State P → State P) → Text → Option P → Directive → State P → State P
  unfolding host_directive match_directive include_directive setting
  directive parse file base d st =
      if d.keyword == codes "host"
      then host_directive d.args st
      else if d.keyword == codes "match"
      then match_directive file d.line st
      else if d.keyword == codes "include"
      then include_directive parse file base d st
      else if st.in_match
      then st
      else setting file d st

  unfoldable pub each_directive :
      (P → State P → State P) → Text → Option P → List Directive → State P → State P
  unfolding directive
  each_directive parse file base [] st = st
  each_directive parse file base (d ∷ ds) st =
      each_directive parse file base ds (directive parse file base d st)

  -- `absorb`, between the caller's variables: `current` and `in_match` are its own.
  unfoldable pub absorb :
      (P → State P → State P) → List Directive → Text → Option P → State P → State P
  unfolding each_directive flush
  absorb parse ds file base st =
      let done =
        each_directive parse file base ds (record st { current = none; in_match = false }) in
      record st { visited = done.visited; cfg = flush done.current done.cfg }

  module _ ⦃e : PartialEq P⦄ where
    -- `parse_into` at the depth `max_include_depth + 1 - left`.
    unfoldable pub parse_into : ℕ → P → State P → State P
    unfolding absorb
    parse_into zero path st = record st { cfg = warn st.cfg (include_cycle (fs.display path) 0) }
    parse_into (suc left) path st =
        if contains st.visited (fs.canonical path)
        then record st { cfg = warn st.cfg (include_cycle (fs.display path) 0) }
        else elim (fs.read path) [
          | none ↦ record st { visited = fs.canonical path ∷ st.visited }
          | some text ↦
              absorb (parse_into left) (tokenize fs.to_lowercase text) (fs.display path)
                (fs.parent path) (record st { visited = fs.canonical path ∷ st.visited })
        ]

    unfoldable pub parse_file : P → ParsedConfig
    unfolding parse_into
    parse_file path =
        (parse_into (max_include_depth + 1) path
          (record { current = none; in_match = false; visited = []; cfg = no_config })).cfg
