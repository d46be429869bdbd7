-- ===== src/Approval/Chain.antt =====
-- Runs of `InMemoryApprovalRepository` in src/ndt_agents/approval/service.py: the repository is its
-- log, and every chain of it verifies.
use ndt_agents.Base.{
  ℕ, suc, ◌+◌, Bool, true, ◌&&◌, List, [], ◌∷◌, ◌++◌, String, str_eq, eq_iff, length, ◌≡◌, refl,
  inl, inr, Bool-cases, arith,
}
use mathlib.Core.Path.{subst}
use ndt_agents.Result.{Result, ok, err}
use ndt_agents.Cache.Models.{TenantScope}
use ndt_agents.Cache.Backend.{same_key}
use ndt_agents.Approval.Data.{
  ApprovalEvent, Content, payload_content, ApprovalError, approval_chain_invalid, Repository,
}
use ndt_agents.Approval.Journal.{
  new_repository, zero_sha256, chain_key, chain_of, last_sha256, Appending, event_digest,
  next_event, append, is_linked, verify_from, verify, list_events,
}
use ndt_agents.Approval.Log.{
  Log, key_of, spec_append, events_of, event_of, Shows, Simulates, append-Simulates,
}

module _ (digest : Content → String) where
  abbrev log_after : Log → Result ApprovalError Log → Log
  log_after log (ok l) = l
  log_after log (err e) = log

  abbrev pub repository_after :
      Repository → Result ApprovalError (ApprovalEvent × Repository) → Repository
  repository_after r (ok (e, s)) = s
  repository_after r (err e) = r

  -- The log after requests, made in order.
  unfoldable pub log_of : List Appending → Log → Log
  log_of [] log = log
  log_of (a ∷ rest) log = log_of rest (log_after log (spec_append digest a log))

  -- The repository after the same requests.
  unfoldable pub repository_of : List Appending → Repository → Repository
  repository_of [] r = r
  repository_of (a ∷ rest) r = repository_of rest (repository_after r (append digest a r))

  after-Shows :
      (a : Appending) (log : Log) (r : Repository) (x : Result ApprovalError Log)
      (y : Result ApprovalError (ApprovalEvent × Repository))
      → Shows digest log r
      → Simulates digest a x y
      → Shows digest (log_after log x) (repository_after r y)
  after-Shows a log r (ok l) (ok (e, s)) shows h = h.0
  after-Shows a log r (err x) (err y) shows h = shows
  after-Shows a log r (ok l) (err y) shows h = absurd h
  after-Shows a log r (err x) (ok e) shows h = absurd h

  repository_of-Shows :
      (requests : List Appending) (log : Log) (r : Repository)
      → Shows digest log r
      → Shows digest (log_of requests log) (repository_of requests r)
  unfolding log_of repository_of
  repository_of-Shows [] log r shows = shows
  repository_of-Shows (a ∷ rest) log r shows =
      repository_of-Shows rest _ _
        (after-Shows a log r _ _ shows (append-Simulates digest log r shows a))

  empty-Shows : Shows digest [] new_repository
  unfolding chain_of events_of event_of
  empty-Shows = record { chains = λ k. refl; index = λ id. refl }

  -- After any requests the repository shows the log of those that were accepted, and answers the
  -- next request as the log does: with the event of the request, and then showing the new log, or
  -- with the same error.
  pub append_refines_log :
      (requests : List Appending) (a : Appending)
      → Shows digest (log_of requests []) (repository_of requests new_repository)
        × Simulates digest a
            (spec_append digest a (log_of requests []))
            (append digest a (repository_of requests new_repository))
  append_refines_log requests a =
      let shows = repository_of-Shows requests [] new_repository empty-Shows in
      (shows, append-Simulates digest _ _ shows a)

  all_four :
      {a b c d : Bool} → a ≡ true → b ≡ true → c ≡ true → d ≡ true → a && (b && (c && d)) ≡ true
  all_four p q r s = rw (p, q, r, s) refl

  same_text : (s : String) → str_eq s s ≡ true
  same_text s = (eq_iff s s).1 refl

  pub is_linked-next :
      (a : Appending) (chain : List ApprovalEvent)
      → is_linked digest
          (suc (length chain))
          (last_sha256 zero_sha256 chain)
          (next_event digest a chain)
        ≡ true
  unfolding is_linked next_event event_digest
  is_linked-next a chain =
      all_four (ground arith) (same_text (last_sha256 zero_sha256 chain))
        (same_text (digest (payload_content a.payload))) (same_text _)

  pub verify_from-append :
      (n m : ℕ) (before : String) (events : List ApprovalEvent) (e : ApprovalEvent)
      → m ≡ n + length events
      → verify_from digest n before events ≡ ok tt
      → is_linked digest m (last_sha256 before events) e ≡ true
      → verify_from digest n before (events ++ e ∷ []) ≡ ok tt
  unfolding verify_from last_sha256
  verify_from-append n m before [] e eq good linked =
      let here : m ≡ n = omega arith in
      rw (subst (λ i. is_linked digest i before e ≡ true) here linked) refl
  verify_from-append n m before (x ∷ events) e eq good linked =
      elim (Bool-cases (is_linked digest n before x)) [
        | inl h ↦
            let rest : verify_from digest (suc n) x.event_sha256 events ≡ ok tt = rw h at good in
            rw h (verify_from-append (suc n) m x.event_sha256 events e (omega arith) rest linked)
        | inr h ↦
            let bad : ◌≡◌ {A = Result ApprovalError Unit} (err approval_chain_invalid) (ok tt) =
              rw h at good in
            cc
      ]

  verify-events_of : (k : List String) (log : Log) → verify digest (events_of digest k log) ≡ ok tt
  unfolding verify events_of verify_from
  verify-events_of k [] = refl
  verify-events_of k (a ∷ log) =
      let chain = events_of digest k log in
      elim (Bool-cases (same_key (key_of a) k)) [
        | inl h ↦ rw h (
            verify_from-append 1 (suc (length chain)) zero_sha256 chain (next_event digest a chain)
              (omega arith) (verify-events_of k log) (is_linked-next a chain))
        | inr h ↦ rw h (verify-events_of k log)
      ]

  -- After any requests, listing an approval verifies its chain, and returns the events of the
  -- requests that were accepted for it, in order.
  pub list_events-run :
      (requests : List Appending) (scope : TenantScope) (approval_id : String)
      → list_events digest scope approval_id (repository_of requests new_repository)
        ≡ ok (events_of digest (chain_key scope approval_id) (log_of requests []))
  unfolding list_events
  list_events-run requests scope approval_id =
      let shows = repository_of-Shows requests [] new_repository empty-Shows in
      rw
        (
          shows.chains (chain_key scope approval_id),
          verify-events_of (chain_key scope approval_id) (log_of requests []),
        )
        refl
