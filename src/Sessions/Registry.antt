-- ===== src/Sessions/Registry.antt =====
-- The live sessions and the commands on them: apps/desktop/src/commands.rs.
use tern.Prelude.{
  ℕ, ◌+◌, ◌-◌, ◌%◌, ◌^◌, Bool, true, false, Option, none, some, List, [], ◌∷◌, ◌++◌, Text, codes,
  number_text, if◌then◌else◌, ◌==◌, list_eq, nat_eq, Result, ok, err,
}
use tern.Supervisor.{millis_u64}

-- The controls of a transport, of SSH or of a local terminal.
pub record Transport (C : Type 0) : Type 0 where
  pub is_ssh : C → Bool
  pub write : List ℕ → C → Result {0, 0} Text Unit × C
  pub resize : (cols rows : ℕ) → C → Result {0, 0} Text Unit × C
  pub pause : C → C
  pub resume : C → C
  pub close : C → C

pub record LiveSession (C : Type 0) : Type 0 where
  pub control : C
  pub cols : ℕ
  pub rows : ℕ
  pub shutdown : Bool
  pub desktop_pause : Bool
  pub pause_count : ℕ
  pub paused_ms : ℕ
  pub paused_since : Option ℕ

pub data SessionError : Type 0 where
  unknown_session : Text → SessionError
  control_failed : Text → SessionError

pub record AppState (C : Type 0) : Type 0 where
  pub sessions : List (Text × LiveSession C)
  pub next_id : ℕ

-- `AtomicU64::fetch_add`
abbrev pub fetch_add : ℕ → ℕ → ℕ
fetch_add a b = (a + b) % 2 ^ 64

abbrev pub control_answer : Result {0, 0} Text Unit → Result {0, 0} SessionError Unit
control_answer (ok u) = ok u
control_answer (err t) = err (control_failed t)

-- `get_or_insert_with`
abbrev pub since_or : Option ℕ → ℕ → Option ℕ
since_or none now = some now
since_or (some t) now = some t

-- The time since the first pause is added once.
abbrev pub paused_until : Option ℕ → (now paused_ms : ℕ) → ℕ
paused_until none now paused_ms = paused_ms
paused_until (some started) now paused_ms = fetch_add paused_ms (millis_u64 (now - started))

pub data Command : Type 0 where
  write_command : Text → List ℕ → Command
  resize_command : Text → (cols rows : ℕ) → Command
  pause_command : Text → (now : ℕ) → Command
  resume_command : Text → (now : ℕ) → Command
  close_command : Text → Command

abbrev pub target_of : Command → Text
target_of (write_command id _) = id
target_of (resize_command id _ _) = id
target_of (pause_command id _) = id
target_of (resume_command id _) = id
target_of (close_command id) = id

module _ {C : Type 0} where
  unfoldable pub session : List (Text × LiveSession C) → Text → Option (LiveSession C)
  session [] id = none
  session (p ∷ sessions) id = let rest = session sessions id in if p.0 == id then some p.1 else rest

  unfoldable pub remove_session : Text → List (Text × LiveSession C) → List (Text × LiveSession C)
  remove_session id [] = []
  remove_session id (p ∷ sessions) =
      let rest = remove_session id sessions in if p.0 == id then rest else p ∷ rest

  -- `HashMap::insert`
  unfoldable pub insert_session :
      Text → LiveSession C → List (Text × LiveSession C) → List (Text × LiveSession C)
  unfolding remove_session
  insert_session id live sessions = (id, live) ∷ remove_session id sessions

  -- `open_session` around its connection: the id, and the session when it is there.
  unfoldable pub register :
      {E : Type 0}
      → Result {0, 0} E (LiveSession C)
      → AppState C
      → Result {0, 0} E Text × AppState C
  unfolding insert_session
  register (err e) app = (err e, record app { next_id = fetch_add app.next_id 1 })
  register (ok live) app =
      let id : Text = codes "s-" ++ number_text app.next_id in
      (
        ok id,
        record {
          sessions = insert_session id live app.sessions;
          next_id = fetch_add app.next_id 1;
        },
      )

  -- A command on what the table answers for the id; the session in the table shows it.
  unfoldable pub on_found :
      Text
      → (LiveSession C → Result {0, 0} SessionError Unit × LiveSession C)
      → Option (LiveSession C)
      → AppState C
      → Result {0, 0} SessionError Unit × AppState C
  unfolding insert_session
  on_found id f none app = (err (unknown_session id), app)
  on_found id f (some live) app =
      let (answer, live') = f live in
      (answer, record app { sessions = insert_session id live' app.sessions })

  unfoldable pub on_session :
      Text
      → (LiveSession C → Result {0, 0} SessionError Unit × LiveSession C)
      → AppState C
      → Result {0, 0} SessionError Unit × AppState C
  unfolding session on_found
  on_session id f app = on_found id f (session app.sessions id) app

  module _ (transport : Transport C) where
    unfoldable pub write_live :
        List ℕ → LiveSession C → Result {0, 0} SessionError Unit × LiveSession C
    write_live bytes live =
        let (answer, c) = transport.write bytes live.control in
        (control_answer answer, record live { control = c })

    -- The size is kept for a reconnect, whatever the transport answers.
    unfoldable pub resize_live :
        (cols rows : ℕ) → LiveSession C → Result {0, 0} SessionError Unit × LiveSession C
    resize_live cols rows live =
        let (answer, c) = transport.resize cols rows live.control in
        (control_answer answer, record live { control = c; cols = cols; rows = rows })

    unfoldable pub pause_live : (now : ℕ) → LiveSession C → LiveSession C
    pause_live now live = record live {
      desktop_pause = true;
      control =
          if transport.is_ssh live.control then transport.pause live.control else live.control;
      pause_count = fetch_add live.pause_count 1;
      paused_since = since_or live.paused_since now;
    }

    unfoldable pub resume_live : (now : ℕ) → LiveSession C → LiveSession C
    resume_live now live = record live {
      paused_ms = paused_until live.paused_since now live.paused_ms;
      paused_since = none;
      desktop_pause = false;
      control =
          if transport.is_ssh live.control then transport.resume live.control else live.control;
    }

    unfoldable pub close_live : LiveSession C → LiveSession C
    close_live live = record live {
      shutdown = true;
      control =
          if transport.is_ssh live.control then transport.close live.control else live.control;
    }

    unfoldable pub write_session :
        Text → List ℕ → AppState C → Result {0, 0} SessionError Unit × AppState C
    unfolding on_session write_live
    write_session id bytes app = on_session id (write_live bytes) app

    unfoldable pub resize_session :
        Text → (cols rows : ℕ) → AppState C → Result {0, 0} SessionError Unit × AppState C
    unfolding on_session resize_live
    resize_session id cols rows app = on_session id (resize_live cols rows) app

    unfoldable pub pause_session :
        Text → (now : ℕ) → AppState C → Result {0, 0} SessionError Unit × AppState C
    unfolding on_session pause_live
    pause_session id now app = on_session id (λ live. (ok tt, pause_live now live)) app

    unfoldable pub resume_session :
        Text → (now : ℕ) → AppState C → Result {0, 0} SessionError Unit × AppState C
    unfolding on_session resume_live
    resume_session id now app = on_session id (λ live. (ok tt, resume_live now live)) app

    -- The session that was closed, if there was one, and the others.
    unfoldable pub close_session : Text → AppState C → Option (LiveSession C) × AppState C
    unfolding session remove_session close_live
    close_session id app = (
      elim (session app.sessions id) [ none ↦ none | some live ↦ some (close_live live) ],
      record app { sessions = remove_session id app.sessions },
    )

    -- The state after a command.
    unfoldable pub perform : Command → AppState C → AppState C
    unfolding write_session resize_session pause_session resume_session close_session
    perform (write_command id bytes) app = (write_session id bytes app).1
    perform (resize_command id cols rows) app = (resize_session id cols rows app).1
    perform (pause_command id now) app = (pause_session id now app).1
    perform (resume_command id now) app = (resume_session id now app).1
    perform (close_command id) app = (close_session id app).1

    unfoldable pub run : List Command → AppState C → AppState C
    unfolding perform
    run [] app = app
    run (c ∷ commands) app = run commands (perform c app)
