-- ===== src/SshConfig/Parse.antt =====
-- Host stanzas from directives: crates/core-store/src/ssh_config/parse.rs.
pub mod Absorb
pub mod Resolved
use tern.Prelude.{
  ℕ, zero, suc, ◌+◌, Bool, true, false, not, ◌||◌, Option, none, some, List, [], ◌∷◌, ◌++◌, Text,
  codes, ◌==◌, nat_beq, nat_eq, list_eq, PartialEq, if◌then◌else◌, is_empty, any, filter, contains,
  join, parse_unsigned, to_ascii_lowercase, strip_prefix,
}
use tern.Glob.{glob_match}
use tern.Glob.Patterns.{pattern_list}
use tern.SshConfig.Lex.{Directive, tokenize}

pub data Warning : Type 0 where
  match_unsupported : Text → ℕ → Warning
  include_cycle : Text → ℕ → Warning
  include_unreadable : Text → ℕ → Text → Warning
  unsupported_keyword : Text → ℕ → Text → Warning

pub record Stanza : Type 0 where
  pub patterns : List Text
  pub hostname : Option Text
  pub port : Option ℕ
  pub user : Option Text
  pub identity_file : Option Text
  pub proxy_jump : Option Text
  pub server_alive_interval : Option ℕ
  pub connect_timeout : Option ℕ
  pub forward_agent : Option Bool

-- `Stanza { patterns, ..Stanza::default() }`
abbrev pub only_patterns : List Text → Stanza
only_patterns ps = record {
  patterns = ps;
  hostname = none;
  port = none;
  user = none;
  identity_file = none;
  proxy_jump = none;
  server_alive_interval = none;
  connect_timeout = none;
  forward_agent = none;
}

pub record ParsedConfig : Type 0 where
  pub stanzas : List Stanza
  pub warnings : List Warning

abbrev pub no_config : ParsedConfig
no_config = record { stanzas = []; warnings = [] }

-- `if self.f.is_none() { self.f = other.f }`
abbrev pub or_else {ℓ} : {A : Type ℓ} → Option A → Option A → Option A
or_else none b = b
or_else (some a) b = some a

-- `Stanza::matches`
unfoldable pub matches : Stanza → Text → Bool
matches st name = pattern_list (λ pattern. glob_match pattern name) false st.patterns

unfoldable pub inherit_from : Stanza → Stanza → Stanza
inherit_from self other = record {
  patterns = self.patterns;
  hostname = or_else self.hostname other.hostname;
  port = or_else self.port other.port;
  user = or_else self.user other.user;
  identity_file = or_else self.identity_file other.identity_file;
  proxy_jump = or_else self.proxy_jump other.proxy_jump;
  server_alive_interval = or_else self.server_alive_interval other.server_alive_interval;
  connect_timeout = or_else self.connect_timeout other.connect_timeout;
  forward_agent = or_else self.forward_agent other.forward_agent;
}

-- `pattern.starts_with('!') || pattern.contains('*') || pattern.contains('?')`
pub is_negated : Text → Bool
is_negated [] = false
is_negated (c ∷ s) = nat_beq c b'!'

unfoldable pub is_wildcard : Text → Bool
unfolding is_negated
is_wildcard p = is_negated p || contains p b'*' || contains p b'?'

-- The inner loop of `aliases`: the set `seen` and the list `out` hold the same names.
unfoldable pub add_patterns : List Text → List Text → List Text
unfolding is_wildcard
add_patterns out [] = out
add_patterns out (p ∷ ps) =
    let without = add_patterns out ps in
    let with_it = add_patterns (out ++ p ∷ []) ps in
    if is_wildcard p then without else if contains out p then without else with_it

unfoldable pub add_stanzas : List Text → List Stanza → List Text
unfolding add_patterns
add_stanzas out [] = out
add_stanzas out (st ∷ sts) = add_stanzas (add_patterns out st.patterns) sts

unfoldable pub aliases : ParsedConfig → List Text
unfolding add_stanzas
aliases cfg = add_stanzas [] cfg.stanzas

unfoldable pub resolve_in : Stanza → List Stanza → Text → Stanza
unfolding matches inherit_from
resolve_in resolved [] name = resolved
resolve_in resolved (st ∷ sts) name =
    resolve_in (if matches st name then inherit_from resolved st else resolved) sts name

unfoldable pub resolve : ParsedConfig → Text → Stanza
unfolding resolve_in
resolve cfg name = resolve_in (only_patterns (name ∷ [])) cfg.stanzas name

abbrev pub understood : List Text
understood =
    codes "hostname"
    ∷ codes "port"
    ∷ codes "user"
    ∷ codes "identityfile"
    ∷ codes "proxyjump"
    ∷ codes "serveraliveinterval"
    ∷ codes "connecttimeout"
    ∷ codes "forwardagent"
    ∷ []
