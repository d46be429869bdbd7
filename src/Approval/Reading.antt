-- ===== src/Approval/Reading.antt =====
-- What is read from a chain of src/ndt_agents/approval/service.py that an event was added to.
use ndt_agents.Base.{
  true, false, List, [], ◌∷◌, ◌++◌, String, ◌≡◌, refl, ap, ◌∙◌, inl, inr, Bool-cases,
}
use mathlib.Core.List.{append-nil}
use ndt_agents.Result.{Result, ok, ◌>>=◌, >>=-eq-ok, ok-injective}
use ndt_agents.Approval.Data.{
  ApprovalState, pending, approved, rejected, changes_requested, expired, cancelled,
  ApprovalEventType, ApprovalCandidate, Payload, ApprovalEvent, ApprovalError, Content,
}
use ndt_agents.Approval.Journal.{same_event_type}
use ndt_agents.Approval.State.{payloads_of, candidate_of}
use ndt_agents.Approval.Requests.{is_approved}

payloads_of-append :
    {A : Type 0} (t : ApprovalEventType) (read : Payload → Result ApprovalError A)
    (chain : List ApprovalEvent) (e : ApprovalEvent) (xs ys : List A)
    → payloads_of t read chain ≡ ok xs
    → payloads_of t read (e ∷ []) ≡ ok ys
    → payloads_of t read (chain ++ e ∷ []) ≡ ok (xs ++ ys)
unfolding payloads_of
payloads_of-append t read [] e xs ys h g = rw (← ok-injective h) g
payloads_of-append {A} t read (c ∷ cs) e xs ys h g =
    elim (Bool-cases (same_event_type c.event_type t)) [
      | inl same ↦
          let h' : (read c.payload >>= λ a. payloads_of t read cs >>= λ more. ok (a ∷ more))
              ≡ ok xs =
            rw same at h in
          let (x, front, h'') = >>=-eq-ok (read c.payload) _ h' in
          let (more, back, made) = >>=-eq-ok (payloads_of t read cs) _ h'' in
          let rest = payloads_of-append t read cs e more ys back g in
          rw (same, front, rest, ← ok-injective made) refl
      | inr other ↦
          let h' : payloads_of t read cs ≡ ok xs = rw other at h in
          rw other (payloads_of-append t read cs e xs ys h' g)
    ]

pub payloads_of-other :
    {A : Type 0} (t : ApprovalEventType) (read : Payload → Result ApprovalError A)
    (chain : List ApprovalEvent) (e : ApprovalEvent) (xs : List A)
    → payloads_of t read chain ≡ ok xs
    → same_event_type e.event_type t ≡ false
    → payloads_of t read (chain ++ e ∷ []) ≡ ok xs
unfolding payloads_of
payloads_of-other t read chain e xs h other =
    let none_more : payloads_of t read (e ∷ []) ≡ ok [] = rw other refl in
    payloads_of-append t read chain e xs [] h none_more ∙ ap ok (append-nil xs)

pub payloads_of-same :
    {A : Type 0} (t : ApprovalEventType) (read : Payload → Result ApprovalError A)
    (chain : List ApprovalEvent) (e : ApprovalEvent) (xs : List A) (x : A)
    → payloads_of t read chain ≡ ok xs
    → same_event_type e.event_type t ≡ true
    → read e.payload ≡ ok x
    → payloads_of t read (chain ++ e ∷ []) ≡ ok (xs ++ x ∷ [])
unfolding payloads_of
payloads_of-same t read chain e xs x h same shown =
    let one_more : payloads_of t read (e ∷ []) ≡ ok (x ∷ []) = rw (same, shown) refl in
    payloads_of-append t read chain e xs (x ∷ []) h one_more

pub candidate_of-append :
    (digest : Content → String) (chain : List ApprovalEvent) (e : ApprovalEvent)
    (c : ApprovalCandidate)
    → candidate_of digest chain ≡ ok c
    → candidate_of digest (chain ++ e ∷ []) ≡ ok c
unfolding candidate_of
candidate_of-append digest [] e c h = cc
candidate_of-append digest (x ∷ xs) e c h = h

pub approved_state : (s : ApprovalState) → is_approved s ≡ true → s ≡ approved
approved_state approved h = refl
approved_state pending h = cc
approved_state rejected h = cc
approved_state changes_requested h = cc
approved_state expired h = cc
approved_state cancelled h = cc
