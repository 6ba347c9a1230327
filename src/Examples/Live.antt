-- ===== src/Examples/Live.antt =====
-- Tests of live sessions and reconnects, and concrete cases of the theorems on them.
use tern.Prelude.{
  ℕ, ◌≡◌, refl, Bool, true, false, Option, none, some, List, [], ◌∷◌, ◌++◌, Text, codes, Result, ok,
  err,
}
use tern.Store.{Host}
use tern.Store.Hosts
use tern.Store.Hosts.{row_of_draft}
use tern.Store.Settings.{Json, get_or}
use tern.Login.{SshError, is_retryable, io}
use tern.Login.Credentials.{auth_for_host}
use tern.Login.Settings.{SessionConfig, for_host}
use tern.Sessions.{ReconnectError, Messages, establish_saved_host, key_hash_known_hosts}
use tern.Sessions.Retried.{establish-retryable}
use tern.Sessions.Registry
use tern.Sessions.Registry.{
  Transport, LiveSession, SessionError, unknown_session, AppState, Command, write_command,
  pause_command, resume_command, register, run, write_session, close_session, resume_session,
  pause_session,
}
use tern.Sessions.Closed.{run-closed}
use tern.Examples.Sessions.{locked}
use tern.Examples.Stores.{one_host}

-- A terminal that keeps what is written to it.
abbrev tape : Transport (List ℕ)
tape = record {
  is_ssh = λ c. true;
  write = λ bytes c. (ok tt, c ++ bytes);
  resize = λ cols rows c. (ok tt, c);
  pause = λ c. c;
  resume = λ c. c;
  close = λ c. c;
}

abbrev fresh_session : LiveSession (List ℕ)
fresh_session = record {
  control = [];
  cols = 80;
  rows = 24;
  shutdown = false;
  desktop_pause = false;
  pause_count = 0;
  paused_ms = 0;
  paused_since = none;
}

abbrev two_sessions : AppState (List ℕ)
two_sessions = record {
  sessions = (codes "s-0", fresh_session) ∷ (codes "s-1", fresh_session) ∷ [];
  next_id = 2;
}

id_run : (register {E = Text} (ok fresh_session) two_sessions).0 ≡ ok (codes "s-2")
unfolding register tern.Prelude.number_text
id_run = refl

-- Of two pauses the time is counted once, from the first.
pauses_run :
    (run tape
      (pause_command (codes "s-0") 1000000
        ∷ pause_command (codes "s-0") 3000000
        ∷ resume_command (codes "s-0") 6000000
        ∷ resume_command (codes "s-0") 9000000
        ∷ [])
      (record two_sessions { sessions = (codes "s-0", fresh_session) ∷ [] })).sessions
    ≡ (codes "s-0", record fresh_session { pause_count = 2; paused_ms = 5 }) ∷ []
unfolding run
pauses_run = refl

run-closed_example :
    let after =
      run tape
        (pause_command (codes "s-0") 5 ∷ write_command (codes "s-1") (1 ∷ []) ∷ [])
        (close_session tape (codes "s-0") two_sessions).1 in
    (write_session tape (codes "s-0") (7 ∷ []) after ≡ (err (unknown_session (codes "s-0")), after))
    × (Registry.resize_session tape (codes "s-0") 80 24 after
        ≡ (err (unknown_session (codes "s-0")), after))
    × (pause_session tape (codes "s-0") 9 after ≡ (err (unknown_session (codes "s-0")), after))
    × (resume_session tape (codes "s-0") 9 after ≡ (err (unknown_session (codes "s-0")), after))
run-closed_example =
    run-closed tape (pause_command (codes "s-0") 5 ∷ write_command (codes "s-1") (1 ∷ []) ∷ [])
      (codes "s-0") two_sessions (7 ∷ []) 80 24 9

abbrev unset : Json Bool
unset = record { to_string = λ b. none; from_str = λ t. none }

abbrev no_texts : Messages
no_texts = record { ssh_text = λ e. codes "ssh"; store_text = λ e. codes "store" }

-- A network that is down.
abbrev down :
    (insecure hash_new : Bool) → SessionConfig → (cols rows : ℕ) → Result {0, 0} SshError ℕ
down insecure hash_new config cols rows = err (io (codes "unreachable"))

abbrev failed : ReconnectError
failed = record { retryable = true; message = codes "ssh" }

down_run : establish_saved_host locked no_texts unset down 1 one_host [] none 80 24 ≡ err failed
unfolding establish_saved_host Hosts.get row_of_draft tern.Login.Fallbacks.kind_of
    tern.Login.Fallbacks.as_str Hosts.source_of is_retryable
down_run = refl

removed_run :
    establish_saved_host locked no_texts unset down 7 one_host [] none 80 24
    ≡ err (record { retryable = false; message = codes "host 7 was removed" })
unfolding establish_saved_host Hosts.get row_of_draft tern.Prelude.number_text
removed_run = refl

establish-retryable_example :
    (host : Host) × (s : SshError) × (Hosts.get 1 one_host ≡ ok (some host))
    × (down false
          (get_or unset key_hash_known_hosts false one_host)
          (for_host host (auth_for_host locked host []).methods none)
          80
          24
        ≡ err s)
    × (is_retryable s ≡ true)
establish-retryable_example =
    establish-retryable locked no_texts unset down 1 one_host [] none 80 24 failed down_run refl
