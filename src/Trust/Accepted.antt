-- ===== src/Trust/Accepted.antt =====
-- Which host keys a connection accepts.
use tern.Prelude.{
  subst, sym, ap, ◌∙◌, false≢true, if◌then◌else◌, ◌≡◌, refl, ◌↔◌, ◌⊎◌, inl, inr, Bool, true, false,
  [], ◌∷◌, Option, none, some, List, Result, ok, err,
}
use tern.KnownHosts.{
  SshKeys, HostKeyVerdict, trusted, unknown, changed, revoked_at, KnownHostsError,
}
use tern.KnownHosts.File.{Faults, Disk, verify}
use tern.KnownHosts.Learn.{learn}
use tern.Trust.{
  HostKeyInfo, Outcome, TrustEvent, Prompting, answered, after_answer, recorded, host_key_asked,
  on_verdict, host_key_prompt,
}

module _ {K : Type 0} (lib : SshKeys K) (p : Prompting K) (faults : Faults) (disk : Disk)
    (info : HostKeyInfo K) where
  abbrev learnt : Disk
  learnt = (learn lib faults disk p.salt info.host info.port info.public_key p.hash_new_entries).1

  -- What a verdict and an answer come to.
  abbrev pub Settles : Option Bool → Result KnownHostsError HostKeyVerdict → Outcome → Type 0
  Settles answer verdict o =
      ((o.accepted ≡ true)
        ↔ ((verdict ≡ ok trusted) ⊎ ((verdict ≡ ok unknown) × (answer ≡ some true))))
      × ((verdict ≡ ok unknown → answer ≡ some true → o.disk ≡ learnt)
          × ((¬ ((verdict ≡ ok unknown) × (answer ≡ some true))) → o.disk ≡ disk))

  recorded-accepted :
      (sent : List TrustEvent) (r : Result {0, 0} KnownHostsError Unit × Disk)
      → ((recorded lib p faults disk info sent r).accepted ≡ true)
        × ((recorded lib p faults disk info sent r).disk ≡ r.1)
  unfolding recorded
  recorded-accepted sent (ok u, d) = (refl, refl)
  recorded-accepted sent (err e, d) = (refl, refl)

  -- A refusal that leaves the file.
  refused :
      (answer : Option Bool) (verdict : Result KnownHostsError HostKeyVerdict) (o : Outcome)
      → o.accepted ≡ false
      → o.disk ≡ disk
      → ¬ (verdict ≡ ok trusted)
      → ¬ ((verdict ≡ ok unknown) × (answer ≡ some true))
      → Settles answer verdict o
  refused answer verdict o e d n m =
      ((λ h. absurd (false≢true (sym e ∙ h)), never), (λ u a. absurd (m (u, a)), λ h. d))
    where
      never :
          (verdict ≡ ok trusted) ⊎ ((verdict ≡ ok unknown) × (answer ≡ some true))
          → o.accepted ≡ true
      never (inl h) = absurd (n h)
      never (inr h) = absurd (m h)

  on_verdict-Settles :
      (answer : Option Bool) (verdict : Result KnownHostsError HostKeyVerdict)
      → Settles answer verdict (on_verdict lib p faults disk info answer verdict)
  unfolding on_verdict after_answer answered
  on_verdict-Settles answer (err e) =
      refused answer (err e) (on_verdict lib p faults disk info answer (err e)) refl refl (λ h. cc)
        (λ (h, a). cc)
  on_verdict-Settles answer (ok trusted) = ((λ h. inl refl, λ h. refl), (λ h a. cc, λ h. refl))
  on_verdict-Settles answer (ok (revoked_at line)) =
      refused answer (ok (revoked_at line))
        (on_verdict lib p faults disk info answer (ok (revoked_at line))) refl refl (λ h. cc)
        (λ (h, a). cc)
  on_verdict-Settles answer (ok (changed line a f)) =
      refused answer (ok (changed line a f))
        (on_verdict lib p faults disk info answer (ok (changed line a f))) refl refl (λ h. cc)
        (λ (h, b). cc)
  on_verdict-Settles none (ok unknown) =
      refused none (ok unknown) (on_verdict lib p faults disk info none (ok unknown)) refl refl
        (λ h. cc) (λ (h, a). cc)
  on_verdict-Settles (some false) (ok unknown) =
      refused (some false) (ok unknown)
        (on_verdict lib p faults disk info (some false) (ok unknown)) refl refl (λ h. cc)
        (λ (h, a). cc)
  on_verdict-Settles (some true) (ok unknown) =
      let (a, d) =
        recorded-accepted
          (host_key_asked p.session_id info.host info.port info.algorithm info.fingerprint_sha256
            ∷ [])
          (learn lib faults disk p.salt info.host info.port info.public_key p.hash_new_entries) in
      ((λ h. inr (refl, refl), λ h. a), (λ h b. d, λ h. absurd (h (refl, refl))))

  -- Outside of benchmark runs a presented key is accepted exactly if the file trusts it, or does not
  -- know the host and the user said yes; an unreadable file, a revoked and a changed key, and a
  -- dropped prompt refuse it. The file is left by `learn` where the user said yes to an unknown key,
  -- and untouched otherwise.
  pub host_key_prompt-Settles :
      (answer : Option Bool)
      → p.insecure_accept ≡ false
      → Settles answer
          (verify lib faults disk info.host info.port info.public_key)
          (host_key_prompt lib p faults disk info answer)
  unfolding host_key_prompt
  host_key_prompt-Settles answer i =
      let verdict : Result KnownHostsError HostKeyVerdict =
        verify lib faults disk info.host info.port info.public_key in
      let accepting : Outcome = record { accepted = true; disk = disk; sent = [] } in
      subst (Settles answer verdict)
        (sym
          (ap (λ b. if b then accepting else on_verdict lib p faults disk info answer verdict) i))
        (on_verdict-Settles answer verdict)
