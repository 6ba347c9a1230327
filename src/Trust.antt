-- ===== src/Trust.antt =====
-- The decision on a presented host key: `host_key_prompt` and `approve_host_key` of
-- apps/desktop/src/commands.rs.
pub mod Accepted
use tern.Prelude.{
  ℕ, Bool, true, false, Option, none, some, List, [], ◌∷◌, ◌++◌, Text, codes, Result, ok, err, ◌==◌,
  nat_eq, list_eq, if◌then◌else◌,
}
use tern.KnownHosts.{
  SshKeys, HostKeyVerdict, trusted, unknown, changed, revoked_at, KnownHostsError,
}
use tern.KnownHosts.File.{Faults, Disk, verify}
use tern.KnownHosts.Learn.{learn}

pub record HostKeyInfo (K : Type 0) : Type 0 where
  pub host : Text
  pub port : ℕ
  pub algorithm : Text
  pub fingerprint_sha256 : Text
  pub public_key : K

pub data TrustEvent : Type 0 where
  error : Text → TrustEvent
  host_key_revoked : Text → ℕ → Text → ℕ → TrustEvent
  host_key_changed : Text → ℕ → Text → Text → Text → Text → ℕ → TrustEvent
  host_key_asked : Text → Text → ℕ → Text → Text → TrustEvent

-- The answer of the callback, the file and the events that it leaves.
pub record Outcome : Type 0 where
  pub accepted : Bool
  pub disk : Disk
  pub sent : List TrustEvent

-- The waiting prompts by session. A prompt is a number; inserting one drops another of the same
-- session, whose receiver then gets no answer.
abbrev pub Pending : Type 0
Pending = List (Text × ℕ)

unfoldable pub without : Text → Pending → Pending
without id [] = []
without id ((i, p) ∷ ps) = let rest = without id ps in if i == id then rest else (i, p) ∷ rest

unfoldable pub insert_pending : Text → ℕ → Pending → Pending
unfolding without
insert_pending id p ps = (id, p) ∷ without id ps

unfoldable pub waiting_prompt : Text → Pending → Option ℕ
waiting_prompt id [] = none
waiting_prompt id ((i, p) ∷ ps) =
    let rest = waiting_prompt id ps in if i == id then some p else rest

-- The prompt that gets the answer, if one waits for it.
unfoldable pub approve_host_key : Text → Bool → Pending → Result Text (ℕ × Bool) × Pending
unfolding waiting_prompt without
approve_host_key id accept ps = elim (waiting_prompt id ps) [
  | some p ↦ (ok (p, accept), without id ps)
  | none ↦ (err (codes "no pending host-key prompt for " ++ id), ps)
]

-- `rx.await.unwrap_or(false)`: no answer is a no.
unfoldable pub answered : Option Bool → Bool
answered none = false
answered (some b) = b

-- The arguments of `host_key_prompt`, with the text of an error, the path of the file, and the salt
-- that the system gives.
pub record Prompting (K : Type 0) : Type 0 where
  pub insecure_accept : Bool
  pub session_id : Text
  pub known_hosts_path : Text
  pub hash_new_entries : Bool
  pub show_error : KnownHostsError → Text
  pub salt : Option Text

module _ {K : Type 0} (lib : SshKeys K) (p : Prompting K) (faults : Faults) (disk : Disk)
    (info : HostKeyInfo K) where
  -- The key is accepted, whether it could be recorded or not.
  unfoldable pub recorded : List TrustEvent → Result {0, 0} KnownHostsError Unit × Disk → Outcome
  recorded sent (ok u, disk') = record { accepted = true; disk = disk'; sent = sent }
  recorded sent (err e, disk') = record {
    accepted = true;
    disk = disk';
    sent = sent ++ error (codes "could not record host key: " ++ p.show_error e) ∷ [];
  }

  -- What follows an answer: an accepted key is learnt.
  unfoldable pub after_answer : Bool → List TrustEvent → Outcome
  unfolding recorded
  after_answer false sent = record { accepted = false; disk = disk; sent = sent }
  after_answer true sent =
      recorded sent
        (learn lib faults disk p.salt info.host info.port info.public_key p.hash_new_entries)

  unfoldable pub on_verdict : Option Bool → Result KnownHostsError HostKeyVerdict → Outcome
  unfolding after_answer answered
  on_verdict answer (err e) = record {
    accepted = false;
    disk = disk;
    sent = error (codes "could not read known_hosts: " ++ p.show_error e) ∷ [];
  }
  on_verdict answer (ok trusted) = record { accepted = true; disk = disk; sent = [] }
  on_verdict answer (ok (revoked_at line)) = record {
    accepted = false;
    disk = disk;
    sent = host_key_revoked info.host info.port p.known_hosts_path line ∷ [];
  }
  on_verdict answer (ok (changed line algorithm fingerprint)) = record {
    accepted = false;
    disk = disk;
    sent =
        host_key_changed info.host info.port algorithm fingerprint info.fingerprint_sha256
          p.known_hosts_path line
        ∷ [];
  }
  on_verdict answer (ok unknown) =
      after_answer (answered answer) (
        host_key_asked p.session_id info.host info.port info.algorithm info.fingerprint_sha256 ∷ [])

  -- `answer` is what the user says if asked: none if the prompt is dropped.
  unfoldable pub host_key_prompt : Option Bool → Outcome
  unfolding on_verdict verify
  host_key_prompt answer =
      if p.insecure_accept
      then record { accepted = true; disk = disk; sent = [] }
      else on_verdict answer (verify lib faults disk info.host info.port info.public_key)
