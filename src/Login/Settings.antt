-- ===== src/Login/Settings.antt =====
-- The configuration of a session: `SessionConfig` of crates/core-ssh/src/config.rs and `for_host` of
-- apps/desktop/src/session_cfg.rs.
use tern.Prelude.{ℕ, ◌*◌, Option, none, some, List, [], ◌∷◌, Text, codes, nat_beq, if◌then◌else◌}
use tern.Login.{AuthMethod, agent}
use tern.Store.{Host, HostOverrides}

-- Durations are in nanoseconds.
abbrev pub second : ℕ
second = 1000000000

pub record SessionConfig : Type 0 where
  pub host : Text
  pub port : ℕ
  pub username : Text
  pub auth : List AuthMethod
  pub term : Text
  pub keepalive_interval : Option ℕ
  pub keepalive_max : ℕ
  pub connect_timeout : ℕ
  pub window_size : ℕ
  pub channel_buffer_size : ℕ

-- `SessionConfig::new`
unfoldable pub new : Text → Text → AuthMethod → SessionConfig
new host username method = record {
  host = host;
  port = 22;
  username = username;
  auth = method ∷ [];
  term = codes "xterm-256color";
  keepalive_interval = some (15 * second);
  keepalive_max = 3;
  connect_timeout = 10 * second;
  window_size = 512 * 1024;
  channel_buffer_size = 16;
}

-- `if let Some(x) = o.field { cfg.field = x }`
abbrev pub override {ℓ} : {A : Type ℓ} → Option A → A → A
override none old = old
override (some x) old = x

-- Zero disables keepalives.
unfoldable pub keepalive : Option ℕ → Option ℕ → Option ℕ
keepalive none old = old
keepalive (some secs) old = if nat_beq secs 0 then none else some (secs * second)

abbrev pub seconds : Option ℕ → ℕ → ℕ
seconds none old = old
seconds (some secs) old = secs * second

unfoldable pub for_host : Host → List AuthMethod → Option ℕ → SessionConfig
unfolding new keepalive
for_host host auth req_window =
    let cfg : SessionConfig = new host.hostname host.username agent in
    let o : HostOverrides = host.overrides in
    record cfg {
      auth = auth;
      port = host.port;
      term = override o.term cfg.term;
      keepalive_interval = keepalive o.keepalive_secs cfg.keepalive_interval;
      keepalive_max = override o.keepalive_max cfg.keepalive_max;
      connect_timeout = seconds o.connect_timeout_secs cfg.connect_timeout;
      window_size = override req_window (override o.window_size cfg.window_size);
    }
