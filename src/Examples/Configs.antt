-- ===== src/Examples/Configs.antt =====
-- A client configuration: its tokens, its stanzas and what they resolve to.
use tern.Prelude.{
  ap₂, ◌==◌, ◌+◌, ◌<◌, ◌&&◌, leb, map, to_ascii_lowercase, if◌then◌else◌, All, nat_beq,
  is_whitespace, ◌≢◌, arith, ℕ, zero, ◌≡◌, refl, Bool, true, false, none, some, List, [], ◌∷◌, ◌++◌,
  Text, codes, contains, any, filter, Distinct, list_eq, nat_eq, newline,
}
use tern.SshConfig.Lex.{Directive, tokenize, tokenize_line}
use tern.SshConfig.Lex.RoundTrip.{LowersAscii, KeyChar, NoQuote, tokenize_line-quoted}
use tern.SshConfig.Parse.{
  include_cycle, ParsedConfig, only_patterns, matches, resolve, aliases, no_config,
}
use tern.SshConfig.Parse.Resolved.{FirstValues, resolve-FirstValues, aliases_exact, names}
use tern.SshConfig.Parse.Absorb.{Files, State, parse_file, parse_into, absorb}
use tern.SshConfig.Parse.Absorb.Blocks.{absorb-match_isolates, absorb-leading_settings}

differ : {a b : ℕ} → nat_beq a b ≡ false → a ≢ b
differ h = ground arith

is_KeyChar :
    (c : ℕ)
    → is_whitespace c ≡ false
    → nat_beq c b'"' ≡ false
    → nat_beq c b'#' ≡ false
    → nat_beq c b'=' ≡ false
    → KeyChar c
is_KeyChar c w q h e = (w, differ q, differ h, differ e)

key_chars : All KeyChar (codes "User")
unfolding is_whitespace
key_chars = (
  is_KeyChar b'U' refl refl refl refl,
  (
    is_KeyChar b's' refl refl refl refl,
    (is_KeyChar b'e' refl refl refl refl, (is_KeyChar b'r' refl refl refl refl, tt)),
  ),
)

no_quotes : All NoQuote (codes "a b#" ∷ [] ∷ [])
no_quotes = ((differ refl, (differ refl, (differ refl, (differ refl, tt)))), (tt, tt))

-- The lower case of ASCII, and of one character beyond it.
abbrev lower : ℕ → ℕ
lower c = if nat_beq c 201 then 233 else if leb 65 c && leb c 90 then c + 32 else c

abbrev lower_text : Text → Text
lower_text t = map lower t

lower_text-LowersAscii : LowersAscii lower_text
unfolding to_ascii_lowercase
lower_text-LowersAscii [] a = refl
lower_text-LowersAscii (c ∷ t) (h, a) =
    ap₂ (λ x xs. x ∷ xs) (lower_ascii c h) (lower_text-LowersAscii t a)
  where
    lower_ascii : (d : ℕ) → d < 128 → lower d ≡ (if leb 65 d && leb d 90 then d + 32 else d)
    lower_ascii d l = ground arith

beyond_ascii : tokenize_line lower_text (201 ∷ codes "t x") ≡ some (233 ∷ codes "t", codes "x" ∷ [])
unfolding tokenize_line is_whitespace
beyond_ascii = refl

tokenize_line-quoted_example :
    tokenize_line lower_text (codes "User \"a b#\" \"\"")
    ≡ some (codes "user", codes "a b#" ∷ [] ∷ [])
unfolding to_ascii_lowercase
tokenize_line-quoted_example =
    tokenize_line-quoted lower_text b'U' (codes "ser") (codes "a b#" ∷ [] ∷ [])
      lower_text-LowersAscii (omega arith, (omega arith, (omega arith, (omega arith, tt))))
      key_chars no_quotes

abbrev config : ParsedConfig
config = record {
  stanzas =
      record (only_patterns (codes "web" ∷ codes "db" ∷ [])) { port = some 2222 }
      ∷ record (only_patterns (codes "*" ∷ codes "!db" ∷ [])) {
        port = some 22;
        user = some (codes "ann");
      }
      ∷ [];
  warnings = [];
}

resolve-FirstValues_example :
    FirstValues
      (filter (λ st. matches st (codes "web")) config.stanzas)
      (resolve config (codes "web"))
resolve-FirstValues_example = resolve-FirstValues config (codes "web")

resolve_run : (resolve config (codes "web")).user ≡ some (codes "ann")
unfolding resolve tern.Glob.Patterns.pattern_list tern.Prelude.strip_char tern.Glob.glob_match
resolve_run = refl

aliases_run : aliases config ≡ codes "web" ∷ codes "db" ∷ []
unfolding aliases
aliases_run = refl

aliases_exact_example :
    Distinct (aliases config)
    × ((a : Text) → contains (aliases config) a ≡ any (names a) config.stanzas)
aliases_exact_example = aliases_exact config

-- A disk that holds one file, whose path is its name.
abbrev text : Text
text = codes "Port 1\nHost a\nUser x\nMatch all\nPort 5\nHost b\nPort 7\nFoo 1\n"

abbrev disk : Files Text
disk = record {
  canonical = λ p. p;
  read = λ p. some text;
  display = λ p. p;
  parent = λ p. none;
  path_of = λ t. t;
  is_absolute = λ p. true;
  join_path = λ p q. q;
  lossy = λ p. p;
  is_file = λ p. true;
  file_name = λ p. some p;
  read_dir = λ p. none;
  sort = λ ps. ps;
  home = λ p. none;
  to_lowercase = lower_text;
}

parsed_run :
    (parse_file disk (codes "config")).stanzas
    ≡ record (only_patterns (codes "a" ∷ [])) { user = some (codes "x") }
      ∷ record (only_patterns (codes "b" ∷ [])) { port = some 7 }
      ∷ []
unfolding parse_file tokenize tern.Prelude.lines tern.Prelude.chomp is_whitespace
    tern.Prelude.parse_unsigned
parsed_run = refl

-- A path that the parser does not follow further.
abbrev stay : Text → State Text → State Text
stay p st = st

abbrev empty_state : State Text
empty_state = record { current = none; in_match = false; visited = []; cfg = no_config }

abbrev line_of : ℕ → Text → List Text → Directive
line_of n keyword args = record { line = n; keyword = keyword; args = args }

abbrev port_line : ℕ → Directive
port_line n = line_of n (codes "port") (codes "5" ∷ [])

absorb-match_isolates_example :
    absorb disk stay
      (line_of 1 (codes "host") (codes "a" ∷ [])
        ∷ line_of 2 (codes "match") []
        ∷ port_line 3
        ∷ port_line 4
        ∷ [])
      (codes "config")
      none
      empty_state
    ≡ absorb disk stay
        (line_of 1 (codes "host") (codes "a" ∷ [])
          ∷ line_of 2 (codes "match") []
          ∷ port_line 4
          ∷ [])
        (codes "config")
        none
        empty_state
absorb-match_isolates_example =
    absorb-match_isolates disk stay (codes "config") none
      (line_of 1 (codes "host") (codes "a" ∷ []) ∷ []) (line_of 2 (codes "match") [])
      (port_line 3 ∷ []) (port_line 4 ∷ []) empty_state refl refl ((refl, refl, refl), tt)

absorb-leading_settings_example :
    absorb disk stay
      (port_line 1 ∷ line_of 2 (codes "host") (codes "a" ∷ []) ∷ [])
      (codes "config")
      none
      empty_state
    ≡ absorb disk stay
        (line_of 2 (codes "host") (codes "a" ∷ []) ∷ [])
        (codes "config")
        none
        empty_state
absorb-leading_settings_example =
    absorb-leading_settings disk stay (codes "config") none (port_line 1 ∷ [])
      (line_of 2 (codes "host") (codes "a" ∷ []) ∷ []) empty_state ((refl, refl, refl), tt)

-- A file that includes itself.
abbrev cyclic : Files Text
cyclic = record disk {
  read = λ p. if codes "config" == p then some (codes "Host a\nInclude config\n") else none;
  parent = λ p. some p;
}

cyclic_run : (parse_into cyclic 16 (codes "config") empty_state).cfg ≡ record {
  stanzas = only_patterns (codes "a" ∷ []) ∷ [];
  warnings = include_cycle (codes "config") 0 ∷ [];
}
unfolding parse_into tokenize tern.Prelude.lines tern.Prelude.chomp is_whitespace
    tern.Prelude.strip_prefix
cyclic_run = refl
