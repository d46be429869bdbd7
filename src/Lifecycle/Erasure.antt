-- ===== src/Lifecycle/Erasure.antt =====
-- `release_hold` and `cryptographic_erase` of `DataLifecycleService` in
-- src/ndt_agents/lifecycle/service.py. `KeyRevoker.revoke` is the argument `revokes`: whether it
-- returns for a key.
use ndt_agents.Base.{
  ℕ, Bool, not, if◌then◌else◌, Option, none, some, List, [], ◌∷◌, ◌++◌, String, str_eq, ltb,
}
use ndt_agents.Exec.{pure, raise, gets, lift, modify, raise_if, ◌>>=◌, ◌>>◌}
use ndt_agents.Dict.{lookup, insert}
use ndt_agents.Scheduler.Data.{same_scope}
use ndt_agents.Lifecycle.Data.{
  crypto_erased, released, releases_hold, erases, LifecyclePolicy, KeyRef, MemoryAccess,
  GovernedObject, LegalHold, ApprovalRecord, Payload, hold_payload, Name, retention_active,
  scope_denied, object_key_required, key_revocation_failed, key_error, Governing,
}
use ndt_agents.Lifecycle.Guards.{
  authorize, validate_approval, load_active, deny_holds, record_event, is_holding,
}
use ndt_agents.Lifecycle.Objects.{has_object_key, or_key_error}

module _ (digest : Payload → String) (identify : Name → String) (policy : LifecyclePolicy) where
  -- `release_hold`, of the hold that was found.
  abbrev pub release_found :
      MemoryAccess → String → ApprovalRecord → ℕ → Option LegalHold → Governing LegalHold
  release_found access hold_id approval now none = raise scope_denied
  release_found access hold_id approval now (some h) = do
    raise_if (not (same_scope access.scope h.scope)) scope_denied
    if not (is_holding h.state) then pure h else do
      validate_approval approval access.scope "data.hold.release" "legal_hold" h.hold_id
          policy.policy_version (digest (hold_payload h)) now
      let free = record h { state = released; released_at = some now }
      modify (λ s. record s { holds = insert str_eq hold_id free s.holds })
      found ← gets (λ s. lookup str_eq h.object_id s.objects)
      g ← lift (or_key_error found)
      record_event digest identify access.scope releases_hold (g ∷ []) (some approval.approval_id)
          now
      pure free

  unfoldable pub release_hold : MemoryAccess → String → ApprovalRecord → ℕ → Governing LegalHold
  unfolding authorize validate_approval record_event
  release_hold access hold_id approval now = do
    authorize access "lifecycle:hold"
    found ← gets (λ s. lookup str_eq hold_id s.holds)
    release_found access hold_id approval now found

  -- `self._keys.revoke(key)`.
  abbrev pub revoke : (KeyRef → Bool) → Option KeyRef → Governing Unit
  revoke revokes none = pure tt
  revoke revokes (some key) = do
    raise_if (not (revokes key)) key_revocation_failed
    modify (λ s. record s { revoked = s.revoked ++ key ∷ [] })

  abbrev pub erased : ℕ → GovernedObject → GovernedObject
  erased now g = record g { content = none; state = crypto_erased; crypto_erased_at = some now }

  -- `cryptographic_erase`, of the objects that were loaded.
  abbrev pub erase_loaded :
      (KeyRef → Bool)
      → MemoryAccess
      → ApprovalRecord
      → ℕ
      → List GovernedObject
      → Governing GovernedObject
  erase_loaded revokes access approval now [] = raise key_error
  erase_loaded revokes access approval now (g ∷ gs) = do
    deny_holds (g ∷ [])
    raise_if (ltb now g.retention_until) retention_active
    validate_approval approval access.scope "data.erase" g.object_type g.object_id g.object_version
        g.content_sha256 now
    raise_if (not (has_object_key g g.encryption_key_ref)) object_key_required
    revoke revokes g.encryption_key_ref
    let gone = erased now g
    modify (λ s. record s { objects = insert str_eq g.object_id gone s.objects })
    record_event digest identify access.scope erases (gone ∷ []) (some approval.approval_id) now
    pure gone

  unfoldable pub cryptographic_erase :
      (KeyRef → Bool) → MemoryAccess → String → ApprovalRecord → ℕ → Governing GovernedObject
  unfolding authorize validate_approval load_active deny_holds record_event
  cryptographic_erase revokes access object_id approval now = do
    authorize access "lifecycle:erase"
    objects ← load_active access (object_id ∷ [])
    erase_loaded revokes access approval now objects
