-- ===== src/Examples/Sessions.antt =====
-- Sessions: the supervisor, logins and the coalescer on small inputs.
use tern.Prelude.{
  ◌↔◌, ◌≢◌, zero, suc, All, ◌+◌, ◌==◌, list_eq, nat_eq, if◌then◌else◌, ℕ, ◌≡◌, refl, Bool, true,
  false, Option, none, some, List, [], ◌∷◌, ◌++◌, Text, codes, Result, ok, err, arith, ◌≤◌, ◌<◌,
  ◌^◌, ◌*◌,
}
use tern.Reconnect.{
  Floats, default_backoff, default_policy, off_policy, ceiling, min, decide, give_up, dropped,
  Decision, u32_max, duration_max,
}
use tern.Reconnect.Schedule.{ceiling_exact}
use tern.Supervisor.{
  Supervisor, output_end, exit_status, slept, established, step, begun, reconnecting, connected,
  Phase,
}
use tern.Supervisor.Attempts.{WellSpoken, Reached, beginning, onward, Reached-WellSpoken}
use tern.Login.{
  connect_timeout, SshError, auth_failed, io, AuthMethod, password, agent, key_file, AuthResult,
  success, failure, MethodKind, password_kind, public_key_kind, Russh, authenticate, is_retryable,
  AgentIdentity,
}
use tern.Login.Chain.{Answers, authenticate-Answers, authenticate-not_retryable}
use tern.Login.Connect.{Poll, elapsed, IsElapsed, connect_loop, connect_loop-bounded}
use tern.Login.Accounts.{auth_of, auth_for_host-primary_once}
use tern.Login.Credentials.{Keyring, store_error, auth_for_host, account_for}
use tern.Login.Fallbacks.{encode_auth_fallbacks}
use tern.Login.Settings.{new, for_host}
use tern.Store.{Host, HostOverrides, manual, agent_kind, password_kind}
use tern.Stream.{Happening, chunk_in, tick, input_closed, coalesce, fresh}
use tern.Stream.Frames.{coalesce-delivers, concat}

-- The fraction is a percentage.
abbrev percent : Floats ℕ
percent = record {
  is_finite = λ f. true;
  clamp_unit = λ f. min f 100;
  zero_float = 0;
  mul_f64 = λ d f. d;
}

ceiling_3 : ceiling default_backoff 3 ≡ 2000000000
unfolding ceiling
ceiling_3 = refl

ceiling_exact_example : ceiling default_backoff 3 ≡ min (500000000 * 2 ^ 2) 30000000000
ceiling_exact_example = ceiling_exact default_backoff 3 (omega arith) (omega arith)

-- A transport that is dropped; the first attempt fails, the second connects.
abbrev sleeping : Supervisor ℕ
sleeping = record (begun 0) {
  phase = Phase.waiting 1 (codes "connection lost");
  sent = reconnecting 1 10 500 ∷ [];
}

abbrev back : Supervisor ℕ
back = record (begun 1) { sent = reconnecting 1 10 500 ∷ connected ∷ [] }

dropped_once : Reached percent default_policy true 0 back
unfolding step decide tern.Reconnect.delay
dropped_once =
    onward {s = record sleeping { phase = Phase.connecting 1 (codes "connection lost") }}
      (established 1)
      (onward {s = sleeping} (slept false)
        (onward {s = record (begun 0) { phase = Phase.asking }} (exit_status none true 100)
          (onward {s = begun 0} (output_end false) beginning refl) refl)
        refl)
      refl

Reached-WellSpoken_example : WellSpoken 10 0 (reconnecting 1 10 500 ∷ connected ∷ [])
Reached-WellSpoken_example =
    Reached-WellSpoken percent default_policy true 0 back (omega arith) dropped_once

-- A server that counts the attempts, takes the password "sesame" and has no agent.
abbrev check_password : Text → Result SshError AuthResult
check_password p = if p == codes "sesame" then ok success else ok (failure (password_kind ∷ []))

abbrev server : Russh ℕ Text Text
server = record {
  authenticate_password = λ user p n. (check_password p, n + 1);
  load_secret_key = λ path p. err (codes "no such file");
  best_supported_rsa_hash = λ n. (ok [], n);
  authenticate_publickey = λ user k h n. (ok (failure []), n + 1);
  connect_agent = λ n. (err (io (codes "no agent")), n);
  request_identities = λ n. (ok [], n);
  authenticate_publickey_with = λ user k h n. (err [], n);
  algorithm = λ k. k;
  show_duration = λ d. [];
  unknown_key_text = [];
}

abbrev methods : List AuthMethod
methods = agent ∷ password (codes "wrong") ∷ key_file (codes "k") none ∷ []

authenticate-Answers_example :
    Answers server (codes "ann") methods (authenticate server (codes "ann") methods 0)
authenticate-Answers_example = authenticate-Answers server (codes "ann") methods 0

abbrev told : SshError
told = auth_failed (codes "agent: no agent; password: rejected; key k: not offered by server")

failed_run : (authenticate server (codes "ann") methods 0).0 ≡ err told
unfolding authenticate tern.Prelude.join tern.Login.method_label
failed_run = refl

authenticate-not_retryable_example : is_retryable told ≡ false
authenticate-not_retryable_example =
    authenticate-not_retryable server (codes "ann") methods 0 told failed_run

abbrev happenings : List Happening
happenings =
    chunk_in (codes "ab") true true
    ∷ chunk_in (codes "cd") false true
    ∷ tick true
    ∷ chunk_in (codes "e") false true
    ∷ []

frames_run : (coalesce 4 happenings fresh).frames ≡ codes "ab" ∷ codes "cd" ∷ []
unfolding coalesce
frames_run = refl

coalesce-delivers_example :
    concat (coalesce 4 (happenings ++ input_closed true ∷ []) fresh).frames ≡ codes "abcde"
coalesce-delivers_example = coalesce-delivers 4 happenings (refl, (refl, (refl, (refl, tt))))

-- Nobody answers the prompt: eighteen windows of ten seconds make up the longest wait.
abbrev unanswered : ℕ → List Poll
unanswered zero = []
unanswered (suc n) = elapsed true ∷ unanswered n

connect_loop-bounded_example :
    connect_loop 10000000000 0 (unanswered 19) ≡ some (err (connect_timeout 10000000000))
connect_loop-bounded_example =
    connect_loop-bounded 10000000000 18 (unanswered 19) (omega arith) (omega arith) (all_elapsed 19)
  where
    all_elapsed : (n : ℕ) → All IsElapsed (unanswered n)
    all_elapsed zero = tt
    all_elapsed (suc n) = (tt, all_elapsed n)

encoded_run :
    encode_auth_fallbacks (password_kind ∷ agent_kind ∷ []) ≡ some (codes "password,agent")
unfolding encode_auth_fallbacks tern.Prelude.join
encoded_run = refl

abbrev no_overrides : HostOverrides
no_overrides = record {
  term = none;
  keepalive_secs = none;
  keepalive_max = none;
  connect_timeout_secs = none;
  window_size = none;
  reconnect_enabled = none;
  reconnect_max_attempts = none;
}

abbrev pub saved : Host
saved = record {
  id = 12;
  folder_id = none;
  name = codes "box";
  hostname = codes "h";
  port = 22;
  username = codes "ann";
  auth = agent_kind;
  auth_fallbacks = password_kind ∷ agent_kind ∷ [];
  secret_ref = none;
  key_path = none;
  overrides = no_overrides;
  proxy_jump = none;
  source = manual;
  source_alias = none;
  color = none;
  notes = none;
  last_connected_at = none;
  connect_count = 0;
  created_at = 1;
  updated_at = 1;
  tags = [];
}

account_run : account_for saved ≡ some (codes "host/12/password")
unfolding account_for tern.Prelude.number_text
account_run = refl

abbrev target : Host
target = record saved {
  overrides = record no_overrides { keepalive_secs = some 0; window_size = some 5 };
}

host_run :
    for_host target (agent ∷ []) (some 7)
    ≡ record (new (codes "h") (codes "ann") agent) { keepalive_interval = none; window_size = 7 }
unfolding for_host
host_run = refl

-- A keyring that cannot be read.
abbrev pub locked : Keyring Text
locked = record {
  get_password = λ account v. err (store_error (codes "locked"));
  set_password = λ account password v. (err (store_error (codes "locked")), v);
  delete = λ account v. (err (store_error (codes "locked")), v);
}

auth_for_host-primary_once_example :
    (first : AuthMethod) × (rest : List AuthMethod) × ((auth_for_host locked saved []).methods
      ≡ first ∷ rest)
    × (auth_of first ≡ agent_kind)
    × All (λ m. auth_of m ≢ agent_kind) rest
auth_for_host-primary_once_example = auth_for_host-primary_once locked saved []

methods_run : (auth_for_host locked saved []).methods ≡ agent ∷ password [] ∷ []
unfolding auth_for_host
methods_run = refl
