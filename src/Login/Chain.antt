-- ===== src/Login/Chain.antt =====
-- What the chain of login methods promises: `authenticate` of crates/core-ssh/src/session.rs.
use tern.Prelude.{
  ◌≡◌, refl, sym, ap, ◌∙◌, true, false, Option, none, some, List, [], ◌∷◌, ◌++◌, Text, codes, join,
  Result, ok, err, Bool-cases, ◌⊎◌, inl, inr, append_assoc, append-nil, subst,
}
use tern.Login.{
  SshError, auth_failed, is_retryable, AuthMethod, MethodKind, AuthResult, success, failure, Russh,
  ruled_out, note, try_method, auth_loop, after_loop, authenticate,
}

err_injective : {E A : Type 0} {x y : E} → ◌≡◌ {A = Result E A} (err x) (err y) → x ≡ y
err_injective h = cc

-- One note for each method, in their order.
abbrev pub Notes : List AuthMethod → List Text → Type 0
Notes [] [] = Unit
Notes [] (a ∷ notes) = ⊥
Notes (m ∷ ms) [] = ⊥
Notes (m ∷ ms) (a ∷ notes) = ((why : Text) × (a ≡ note m why)) × Notes ms notes

module _ {S K H : Type 0} (russh : Russh S K H) (user : Text) where
  -- A method of the list is accepted by the server in some state, which leads to the last one.
  abbrev pub Accepted : List AuthMethod → S → Type 0
  Accepted [] last = ⊥
  Accepted (m ∷ ms) last =
      ((s : S) × (try_method russh user m s ≡ (ok success, last))) ⊎ Accepted ms last

  -- What the loop comes to.
  abbrev Outcome : List Text → List AuthMethod → Result {0, 0} (List Text) Unit × S → Type 0
  Outcome attempts ms (ok u, last) = Accepted ms last
  Outcome attempts ms (err all, last) =
      (notes : List Text) × Notes ms notes × (all ≡ attempts ++ notes)

  Outcome-tried :
      (attempts : List Text) (m : AuthMethod) (ms : List AuthMethod) (why : Text)
      (r : Result {0, 0} (List Text) Unit × S)
      → Outcome (attempts ++ note m why ∷ []) ms r
      → Outcome attempts (m ∷ ms) r
  Outcome-tried attempts m ms why (ok u, last) h = inr h
  Outcome-tried attempts m ms why (err all, last) (notes, n, e) =
      (note m why ∷ notes, ((why, refl), n), e ∙ append_assoc attempts (note m why ∷ []) notes)

  -- A round at an answer of the server, given what the rest of the chain comes to.
  auth_loop-answer :
      (offered : Option (List MethodKind)) (attempts : List Text) (m : AuthMethod)
      (ms : List AuthMethod) (s : S) (answer : Result SshError AuthResult)
      → ((o : Option (List MethodKind)) (a : List Text) (t : S)
          → Outcome a ms (auth_loop russh user o a ms t))
      → ruled_out offered m ≡ false
      → (try_method russh user m s).0 ≡ answer
      → Outcome attempts (m ∷ ms) (auth_loop russh user offered attempts (m ∷ ms) s)
  unfolding auth_loop
  auth_loop-answer offered attempts m ms s (ok success) ih r e =
      rw (r, e, auth_loop) (inl (s, ap (λ a. (a, (try_method russh user m s).1)) e))
  auth_loop-answer offered attempts m ms s (ok (failure remaining)) ih r e =
      rw (r, e, auth_loop)
        (Outcome-tried attempts m ms _ _ (ih (some remaining) _ (try_method russh user m s).1))
  auth_loop-answer offered attempts m ms s (err x) ih r e =
      rw (r, e, auth_loop)
        (Outcome-tried attempts m ms _ _ (ih offered _ (try_method russh user m s).1))

  auth_loop-skip :
      (offered : Option (List MethodKind)) (attempts : List Text) (m : AuthMethod)
      (ms : List AuthMethod) (s : S)
      → ruled_out offered m ≡ true
      → auth_loop russh user offered attempts (m ∷ ms) s
        ≡ auth_loop russh user offered
            (attempts ++ note m (codes "not offered by server") ∷ [])
            ms
            s
  unfolding auth_loop
  auth_loop-skip offered attempts m ms s r = rw (r, auth_loop) refl

  auth_loop-Outcome :
      (offered : Option (List MethodKind)) (attempts : List Text) (ms : List AuthMethod) (s : S)
      → Outcome attempts ms (auth_loop russh user offered attempts ms s)
  unfolding auth_loop
  auth_loop-Outcome offered attempts [] s = ([], tt, sym (append-nil attempts))
  auth_loop-Outcome offered attempts (m ∷ ms) s = elim (Bool-cases (ruled_out offered m)) [
    | inl r ↦
        subst (λ x. Outcome attempts (m ∷ ms) x) (sym (auth_loop-skip offered attempts m ms s r))
          (Outcome-tried attempts m ms _ _ (auth_loop-Outcome offered _ ms s))
    | inr r ↦
        auth_loop-answer offered attempts m ms s (try_method russh user m s).0
          (λ o a t. auth_loop-Outcome o a ms t) r refl
  ]

  -- What a login answers for a chain of methods.
  abbrev pub Answers : List AuthMethod → Result {0, 0} SshError Unit × S → Type 0
  Answers ms (ok u, last) = Accepted ms last
  Answers [] (err e, last) = e ≡ auth_failed (codes "no authentication methods configured")
  Answers (m ∷ ms) (err e, last) =
      (notes : List Text) × Notes (m ∷ ms) notes × (e ≡ auth_failed (join (codes "; ") notes))

  after_loop-Answers :
      (ms : List AuthMethod) (r : Result {0, 0} (List Text) Unit × S)
      → Outcome [] ms r
      → Answers ms (after_loop r)
  unfolding after_loop
  after_loop-Answers ms (ok u, last) h = h
  after_loop-Answers [] (err [], last) h = refl
  after_loop-Answers (m ∷ ms) (err [], last) ([], n, q) = absurd n
  after_loop-Answers (m ∷ ms) (err [], last) (a ∷ notes, n, q) = cc
  after_loop-Answers [] (err (b ∷ all), last) ([], n, q) = cc
  after_loop-Answers [] (err (b ∷ all), last) (a ∷ notes, n, q) = absurd n
  after_loop-Answers (m ∷ ms) (err (b ∷ all), last) (notes, n, q) =
      (notes, n, ap (λ x. auth_failed (join (codes "; ") x)) q)

  -- A login that is granted was granted by the server to a method of the chain, and nothing is done
  -- after that. One that is not says so by `AuthFailed` and no other error, with one note for each
  -- method in the order of the chain, tried or not.
  pub authenticate-Answers :
      (ms : List AuthMethod) (s : S) → Answers ms (authenticate russh user ms s)
  unfolding authenticate
  authenticate-Answers ms s =
      after_loop-Answers ms (auth_loop russh user none [] ms s) (auth_loop-Outcome none [] ms s)

  failed_login :
      (ms : List AuthMethod) (r : Result {0, 0} SshError Unit × S) (e : SshError)
      → Answers ms r
      → r.0 ≡ err e
      → is_retryable e ≡ false
  unfolding is_retryable
  failed_login ms (ok u, last) e a h = cc
  failed_login [] (err x, last) e a h = rw (sym (err_injective h), a) refl
  failed_login (m ∷ ms) (err x, last) e (notes, n, a) h = rw (sym (err_injective h), a) refl

  -- A login that fails is never retried, whatever the errors of its methods.
  pub authenticate-not_retryable :
      (ms : List AuthMethod) (s : S) (e : SshError)
      → (authenticate russh user ms s).0 ≡ err e
      → is_retryable e ≡ false
  authenticate-not_retryable ms s e h =
      failed_login ms (authenticate russh user ms s) e (authenticate-Answers ms s) h
