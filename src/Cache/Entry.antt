-- ===== src/Cache/Entry.antt =====
-- The requests that `CacheService.put` of src/ndt_agents/cache/service.py stores, and what
-- `CacheService.invalidate` takes away.
use ndt_agents.Base.{
  ℕ, ◌≤◌, Bool, true, false, not, ◌&&◌, Option, none, some, String, ◌≡◌, refl, ◌≢◌, ◌⊎◌, inl, inr,
  arith,
}
use ndt_agents.Result.{ok}
use ndt_agents.Dict.{lookup, insert}
use ndt_agents.Budget.Policy.{TaskClass, g0, p1}
use ndt_agents.Cache.Models.{
  CacheClass, exact, retrieval, tool, parse, semantic, CacheSideEffect, side_pure, side_write,
  CachePolicy, CachePutRequest, CacheRecord, is_valid_put, is_valid_policy, is_valid_record,
}
use ndt_agents.Cache.Backend.{Records, same_key, record_key, backend_put, put_over}
use ndt_agents.Cache.Service.{
  CacheService, validate_put, record_of, make_record, put_records, put, ttl, is_class_tool,
  is_class_semantic, is_write, is_pure, is_light_task, below_threshold,
}
use ndt_agents.Cache.Lookups.{put_key}
use ndt_agents.Cache.Admission.{IsAdmissible}

not_write-false : (e : CacheSideEffect) → e ≢ side_write → is_write e ≡ false
not_write-false side_pure n = refl
not_write-false CacheSideEffect.side_read n = refl
not_write-false side_write n = absurd (n refl)

tool_is_pure :
    (c : CacheClass) (e : CacheSideEffect)
    → (c ≡ tool → e ≡ side_pure)
    → is_class_tool c && not (is_pure e) ≡ false
tool_is_pure exact e h = refl
tool_is_pure retrieval e h = refl
tool_is_pure tool e h = rw (h refl) refl
tool_is_pure parse e h = refl
tool_is_pure semantic e h = refl

light : {t : TaskClass} → (t ≡ g0) ⊎ (t ≡ p1) → is_light_task t ≡ true
light (inl h) = rw h refl
light (inr h) = rw h refl

semantic_is_light :
    (c : CacheClass) (t : TaskClass)
    → (c ≡ semantic → (t ≡ g0) ⊎ (t ≡ p1))
    → is_class_semantic c && not (is_light_task t) ≡ false
semantic_is_light exact t h = refl
semantic_is_light retrieval t h = refl
semantic_is_light tool t h = refl
semantic_is_light parse t h = refl
semantic_is_light semantic t h = rw (light (h refl)) refl

above :
    {minimum : ℕ} {o : Option ℕ}
    → (s : ℕ) × (o ≡ some s) × (minimum ≤ s)
    → below_threshold minimum o ≡ false
above (s, h, most) = rw h (ground arith)

semantic_is_similar :
    (c : CacheClass) (minimum : ℕ) (o : Option ℕ)
    → (c ≡ semantic → (s : ℕ) × (o ≡ some s) × (minimum ≤ s))
    → is_class_semantic c && below_threshold minimum o ≡ false
semantic_is_similar exact m o h = refl
semantic_is_similar retrieval m o h = refl
semantic_is_similar tool m o h = refl
semantic_is_similar parse m o h = refl
semantic_is_similar semantic m o h = above (h refl)

IsAdmissible-validate_put :
    (p : CachePolicy) (r : CachePutRequest) → IsAdmissible p r → validate_put p r ≡ ok tt
unfolding validate_put
IsAdmissible-validate_put p r a = simp (
  a.no_secret,
  a.no_decision,
  a.is_stable,
  not_write-false r.side_effect a.no_write,
  tool_is_pure r.cache_class r.side_effect a.pure_tool,
  semantic_is_light r.cache_class r.task_class a.light_task,
  semantic_is_similar r.cache_class p.semantic_minimum_similarity r.semantic_similarity a.similar,
)

ttl-positive : (p : CachePolicy) (c : CacheClass) → is_valid_policy p ≡ true → 1 ≤ ttl p c
unfolding is_valid_policy ttl
ttl-positive p exact h = ground arith
ttl-positive p retrieval h = ground arith
ttl-positive p tool h = ground arith
ttl-positive p parse h = ground arith
ttl-positive p semantic h = ground arith

record_of-valid :
    (digest : String → String) (p : CachePolicy) (r : CachePutRequest)
    → is_valid_policy p ≡ true
    → is_valid_put digest r ≡ true
    → is_valid_record digest (record_of p r) ≡ true
unfolding is_valid_put is_valid_record
record_of-valid digest p r h v = ground (arith, ttl-positive p r.cache_class h)

put_over-free :
    (found : Option CacheRecord) (refresh : Bool) (made : CacheRecord) (before : Records)
    → (refresh ≡ true) ⊎ (found ≡ none)
    → put_over found made refresh before ≡ ok (insert same_key (record_key made) made before)
unfolding put_over
put_over-free none refresh made before h = refl
put_over-free (some r) true made before h = refl
put_over-free (some r) false made before (inl h) = cc
put_over-free (some r) false made before (inr h) = cc

-- Under a policy and a request that pass their validators, an admissible request that is to refresh
-- or whose key is free is stored: `put` returns the new record, and its dictionary holds it under
-- the key, with nothing else changed.
pub IsAdmissible-put :
    (digest : String → String) (p : CachePolicy) (r : CachePutRequest) (s : CacheService)
    → is_valid_policy p ≡ true
    → is_valid_put digest r ≡ true
    → IsAdmissible p r
    → (r.refresh ≡ true) ⊎ (lookup same_key (put_key r) s.records ≡ none)
    → put digest p r s ≡ (
      ok (record_of p r),
      record s { records = insert same_key (put_key r) (record_of p r) s.records },
    )
unfolding put put_records make_record backend_put record_key
IsAdmissible-put digest p r s h v a free = simp (
  IsAdmissible-validate_put p r a,
  record_of-valid digest p r h v,
  put_over-free _ r.refresh (record_of p r) s.records free,
)
