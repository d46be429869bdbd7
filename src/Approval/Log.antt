-- ===== src/Approval/Log.antt =====
-- What `InMemoryApprovalRepository` of src/ndt_agents/approval/service.py promises: a log of requests,
-- each event ID once, of which each chain and each indexed event is a view.
use ndt_agents.Base.{
  Bool, ◌&&◌, if◌then◌else◌, Option, none, some, List, [], ◌∷◌, ◌++◌, String, str_eq, eq_iff, ◌≡◌,
  refl, sym, ap, ◌∙◌, ◌⊎◌, inl, inr, Bool-cases,
}
use mathlib.Core.Path.{subst}
use ndt_agents.Result.{Result, ok, err}
use ndt_agents.Dict.{lookup, insert, lookup-insert, lookup-insert-other}
use ndt_agents.Cache.Backend.{same_key}
use ndt_agents.Cache.Lookups.{same_key-Decides}
use ndt_agents.Scheduler.Terminal.{text-Decides}
use ndt_agents.Approval.Data.{
  ApprovalEvent, Content, payload_content, ApprovalError, approval_idempotency_conflict, Repository,
}
use ndt_agents.Approval.Journal.{
  project_key, chain_key, same_event_type, or_empty, chain_of, Appending, next_event, is_same_event,
  append_over, append,
}

-- The requests that were accepted, the latest first.
abbrev pub Log : Type 0
Log = List Appending

abbrev pub key_of : Appending → List String
key_of a = chain_key a.scope a.approval_id

abbrev pub find : String → Log → Option Appending
find id [] = none
find id (a ∷ log) = let rest = find id log in if str_eq a.event_id id then some a else rest

module _ (digest : Content → String) where
  -- The request under the ID is the one that is made again.
  abbrev pub is_same_request : Appending → Appending → Bool
  is_same_request b a =
      str_eq b.approval_id a.approval_id
      && (same_key (project_key b.scope) (project_key a.scope)
          && (same_event_type b.event_type a.event_type
              && str_eq (digest (payload_content b.payload)) (digest (payload_content a.payload))))

  abbrev spec_over : Option Appending → Appending → Log → Result ApprovalError Log
  spec_over none a log = ok (a ∷ log)
  spec_over (some b) a log =
      if is_same_request b a then ok log else err approval_idempotency_conflict

  -- A request is accepted under a new ID, is nothing new if it is repeated, and is refused otherwise.
  unfoldable pub spec_append : Appending → Log → Result ApprovalError Log
  spec_append a log = spec_over (find a.event_id log) a log

  -- The events of one chain.
  unfoldable pub events_of : List String → Log → List ApprovalEvent
  events_of k [] = []
  events_of k (a ∷ log) =
      let rest = events_of k log in
      if same_key (key_of a) k then rest ++ next_event digest a rest ∷ [] else rest

  unfoldable pub event_of : String → Log → Option ApprovalEvent
  unfolding events_of
  event_of id [] = none
  event_of id (a ∷ log) =
      let rest = event_of id log in
      if str_eq a.event_id id then some (next_event digest a (events_of (key_of a) log)) else rest

  -- The repository shows exactly this log.
  pub record Shows (log : Log) (r : Repository) : Type 0 where
    pub chains : (k : List String) → chain_of k r ≡ events_of k log
    pub index : (id : String) → lookup str_eq id r.by_id ≡ event_of id log

  -- A request that the log accepts, the repository accepts too, and one that the log refuses, the
  -- repository refuses with the same error.
  abbrev pub Simulates :
      Appending
      → Result ApprovalError Log
      → Result ApprovalError (ApprovalEvent × Repository)
      → Type 0
  Simulates a (ok log) (ok (e, r)) = Shows log r × (event_of a.event_id log ≡ some e)
  Simulates a (err x) (err y) = x ≡ y
  Simulates a x y = ⊥

  -- The event of a request has the request's fields.
  event_of-find :
      (a : Appending) (id : String) (log : Log)
      → ((find id log ≡ none) × (event_of id log ≡ none))
        ⊎ ((b : Appending) × (e : ApprovalEvent) × (find id log ≡ some b)
            × (event_of id log ≡ some e)
            × (is_same_event digest e a ≡ is_same_request b a))
  unfolding event_of is_same_event next_event
  event_of-find a id [] = inl (refl, refl)
  event_of-find a id (c ∷ log) = elim (Bool-cases (str_eq c.event_id id)) [
    | inl h ↦ inr (c, next_event digest c (events_of (key_of c) log), rw h refl, rw h refl, refl)
    | inr h ↦ rw h (event_of-find a id log)
  ]

  module _ (log : Log) (r : Repository) (shows : Shows log r) where
    appended_chain :
        (a : Appending) (e : ApprovalEvent) (k : List String)
        → e ≡ next_event digest a (events_of (key_of a) log)
        → or_empty (
            lookup same_key k
              (insert same_key (key_of a) (chain_of (key_of a) r ++ e ∷ []) r.events))
          ≡ events_of k (a ∷ log)
    unfolding events_of chain_of
    appended_chain a e k made = elim (Bool-cases (same_key (key_of a) k)) [
      | inl h ↦
          let key = key_of a in
          let added : chain_of key r ++ e ∷ []
              ≡ events_of key log ++ next_event digest a (events_of key log) ∷ [] =
            rw (shows.chains key, made) refl in
          let shown : events_of key (a ∷ log)
              ≡ events_of key log ++ next_event digest a (events_of key log) ∷ [] =
            rw (same_key-Decides.complete key) refl in
          subst
            (λ j.
              or_empty (lookup same_key j (insert same_key key (chain_of key r ++ e ∷ []) r.events))
              ≡ events_of j (a ∷ log))
            (same_key-Decides.sound key k h)
            (ap or_empty (lookup-insert same_key-Decides key (chain_of key r ++ e ∷ []) r.events)
              ∙ added
              ∙ sym shown)
      | inr h ↦
          ap or_empty (lookup-insert-other same_key-Decides (key_of a) k _ r.events h)
          ∙ shows.chains k
          ∙ rw h refl
    ]

    appended_index :
        (a : Appending) (e : ApprovalEvent) (id : String)
        → e ≡ next_event digest a (events_of (key_of a) log)
        → lookup str_eq id (insert str_eq a.event_id e r.by_id) ≡ event_of id (a ∷ log)
    unfolding event_of
    appended_index a e id made = elim (Bool-cases (str_eq a.event_id id)) [
      | inl h ↦
          let same : a.event_id ≡ id = (eq_iff a.event_id id).0 h in
          rw (← same) (lookup-insert text-Decides a.event_id e r.by_id) ∙ ap some made ∙ rw h refl
      | inr h ↦
          lookup-insert-other text-Decides a.event_id id e r.by_id h ∙ shows.index id ∙ rw h refl
    ]

    append_new : (a : Appending) → Simulates a (ok (a ∷ log)) (append_over digest none a r)
    unfolding chain_of event_of
    append_new a =
        let made = ap (next_event digest a) (shows.chains (key_of a)) in
        (
          record {
            chains = λ k. appended_chain a _ k made;
            index = λ id. appended_index a _ id made;
          },
          rw ((eq_iff a.event_id a.event_id).1 refl) (ap some (sym made)),
        )

    append_known :
        (a b : Appending) (e : ApprovalEvent)
        → event_of a.event_id log ≡ some e
        → is_same_event digest e a ≡ is_same_request b a
        → Simulates a
            (if is_same_request b a then ok log else err approval_idempotency_conflict)
            (append_over digest (some e) a r)
    append_known a b e found same = elim (Bool-cases (is_same_request b a)) [
      | inl h ↦ rw (same, h) (shows, found)
      | inr h ↦ rw (same, h) refl
    ]

    pub append-Simulates : (a : Appending) → Simulates a (spec_append a log) (append digest a r)
    unfolding spec_append append
    append-Simulates a = rw (shows.index a.event_id) (elim (event_of-find a a.event_id log) [
      | inl (new, fresh) ↦ rw (new, fresh) (append_new a)
      | inr (b, e, known, found, same) ↦ rw (known, found) (append_known a b e found same)
    ])
