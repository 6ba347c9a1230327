-- ===== src/Sessions/Closed.antt =====
-- What the commands on a session leave to the others: apps/desktop/src/commands.rs.
use tern.Prelude.{
  ℕ, ◌≡◌, ◌≢◌, refl, sym, ap, ◌∙◌, subst, false≢true, false, Option, none, some, List, [], ◌∷◌,
  Text, ◌==◌, list_eq, nat_eq, list_beq_iff, Result, err, All, arith, Bool-cases, inl, inr,
}
use tern.Sessions.Registry
use tern.Sessions.Registry.{
  Transport, LiveSession, SessionError, unknown_session, AppState, session, remove_session,
  insert_session, on_found, on_session, Command, write_command, resize_command, pause_command,
  resume_command, close_command, target_of, write_session, close_session, perform, run,
}

unlike : (a b : Text) → a ≢ b → (a == b) ≡ false
unlike a b n = elim (Bool-cases (a == b)) [
  | inl t ↦ absurd (n ((list_beq_iff a b).0 t))
  | inr f ↦ f
]

unlike_of : (a b : Text) → (a == b) ≡ false → a ≢ b
unlike_of a b f q = false≢true (sym f ∙ (list_beq_iff a b).1 q)

module _ {C : Type 0} where
  session-removed :
      (sessions : List (Text × LiveSession C)) (id : Text)
      → session (remove_session id sessions) id ≡ none
  unfolding session remove_session
  session-removed [] id = refl
  session-removed (p ∷ sessions) id =
      let ih : session (remove_session id sessions) id ≡ none = session-removed sessions id in
      elim (Bool-cases (p.0 == id)) [ inl t ↦ ground arith | inr f ↦ ground arith ]

  session-remove_other :
      (sessions : List (Text × LiveSession C)) (id other : Text)
      → id ≢ other
      → session (remove_session id sessions) other ≡ session sessions other
  unfolding session remove_session
  session-remove_other [] id other n = refl
  session-remove_other (p ∷ sessions) id other n =
      let ih : session (remove_session id sessions) other ≡ session sessions other =
        session-remove_other sessions id other n in
      elim (Bool-cases (p.0 == id)) [
        | inl t ↦
            let q : (p.0 == other) ≡ false =
              ap (λ k. k == other) ((list_beq_iff p.0 id).0 t) ∙ unlike id other n in
            ground arith
        | inr f ↦ ground arith
      ]

  on_found-other :
      (id other : Text) (f : LiveSession C → Result {0, 0} SessionError Unit × LiveSession C)
      (found : Option (LiveSession C)) (app : AppState C)
      → id ≢ other
      → session (on_found id f found app).1.sessions other ≡ session app.sessions other
  unfolding on_found insert_session session
  on_found-other id other f none app n = refl
  on_found-other id other f (some live) app n =
      let o : (id == other) ≡ false = unlike id other n in
      rw o (session-remove_other app.sessions id other n)

  on_session-unknown :
      (id : Text) (f : LiveSession C → Result {0, 0} SessionError Unit × LiveSession C)
      (app : AppState C)
      → session app.sessions id ≡ none
      → on_session id f app ≡ (err (unknown_session id), app)
  unfolding on_session on_found
  on_session-unknown id f app h = ap (λ o. on_found id f o app) h

  module _ (transport : Transport C) where
    perform-other :
        (c : Command) (other : Text) (app : AppState C)
        → target_of c ≢ other
        → session (perform transport c app).sessions other ≡ session app.sessions other
    unfolding perform on_session write_session Registry.resize_session Registry.pause_session
        Registry.resume_session close_session
    perform-other (write_command id bytes) other app n = on_found-other id other _ _ app n
    perform-other (resize_command id cols rows) other app n = on_found-other id other _ _ app n
    perform-other (pause_command id now) other app n = on_found-other id other _ _ app n
    perform-other (resume_command id now) other app n = on_found-other id other _ _ app n
    perform-other (close_command id) other app n = session-remove_other app.sessions id other n

    perform-gone :
        (c : Command) (app : AppState C)
        → session app.sessions (target_of c) ≡ none
        → session (perform transport c app).sessions (target_of c) ≡ none
    unfolding perform on_session write_session Registry.resize_session Registry.pause_session
        Registry.resume_session close_session
    perform-gone (write_command id bytes) app h =
        ap (λ r. session r.1.sessions id) (on_session-unknown id _ app h) ∙ h
    perform-gone (resize_command id cols rows) app h =
        ap (λ r. session r.1.sessions id) (on_session-unknown id _ app h) ∙ h
    perform-gone (pause_command id now) app h =
        ap (λ r. session r.1.sessions id) (on_session-unknown id _ app h) ∙ h
    perform-gone (resume_command id now) app h =
        ap (λ r. session r.1.sessions id) (on_session-unknown id _ app h) ∙ h
    perform-gone (close_command id) app h = session-removed app.sessions id

    run-gone :
        (commands : List Command) (id : Text) (app : AppState C)
        → session app.sessions id ≡ none
        → session (run transport commands app).sessions id ≡ none
    unfolding run
    run-gone [] id app h = h
    run-gone (c ∷ commands) id app h =
        run-gone commands id (perform transport c app) (elim (Bool-cases (target_of c == id)) [
          | inl t ↦
              let q : target_of c ≡ id = (list_beq_iff (target_of c) id).0 t in
              subst (λ k. session (perform transport c app).sessions k ≡ none) q
                (perform-gone c app (subst (λ k. session app.sessions k ≡ none) (sym q) h))
          | inr f ↦ perform-other c id app (unlike_of (target_of c) id f) ∙ h
        ])

    run-others :
        (commands : List Command) (id : Text) (app : AppState C)
        → All (λ c. target_of c ≢ id) commands
        → session (run transport commands app).sessions id ≡ session app.sessions id
    unfolding run
    run-others [] id app a = refl
    run-others (c ∷ commands) id app (n, a) =
        run-others commands id (perform transport c app) a ∙ perform-other c id app n

    -- Once a session is closed, whatever commands follow on it or on others, a later write, resize, pause or resume on it answers that the session is unknown and changes nothing, not the size that is kept for a reconnect either, as long as no session is opened in between.
    pub run-closed :
        (commands : List Command) (id : Text) (app : AppState C)
        → (bytes : List ℕ) (cols rows now : ℕ)
        → let after = run transport commands (close_session transport id app).1 in
          (write_session transport id bytes after ≡ (err (unknown_session id), after))
          × (Registry.resize_session transport id cols rows after
              ≡ (err (unknown_session id), after))
          × (Registry.pause_session transport id now after ≡ (err (unknown_session id), after))
          × (Registry.resume_session transport id now after ≡ (err (unknown_session id), after))
    unfolding write_session Registry.resize_session Registry.pause_session Registry.resume_session
        close_session
    run-closed commands id app bytes cols rows now =
        let gone =
          run-gone commands id (close_session transport id app).1
            (session-removed app.sessions id) in
        (
          on_session-unknown id _ _ gone,
          on_session-unknown id _ _ gone,
          on_session-unknown id _ _ gone,
          on_session-unknown id _ _ gone,
        )
