-- ===== src/Cache/Service.antt =====
-- `CacheService` of src/ndt_agents/cache/service.py. The backend's dictionary and
-- the service's counters are one state; the policy is an argument.
use ndt_agents.Base.{
  ℕ, ◌+◌, ◌*◌, Bool, true, false, not, ◌&&◌, ◌||◌, if◌then◌else◌, Option, none, some, is_some, List,
  [], ◌∷◌, String, length, ltb, leb, ◌==◌, str_eq,
}
use ndt_agents.Result.{Result, ok, err, ◌>>=◌}
use ndt_agents.Dict.{lookup}
use ndt_agents.Budget.Policy.{TaskClass, g0, p1}
use ndt_agents.Cache.Models.{
  CacheClass, exact, retrieval, tool, parse, semantic, CacheValidationState, valid, CacheSideEffect,
  side_pure, side_write, CachePolicy, CachePutRequest, CacheGetRequest, CacheRecord, CacheMetrics,
  is_valid_record,
}
use ndt_agents.Cache.Backend.{
  CacheError, cache_secret_denied, cache_authorization_denied, cache_unstable_denied,
  cache_side_effect_denied, cache_tool_not_pure, cache_semantic_task_denied,
  cache_semantic_similarity_denied, record_invalid, Records, backend_get, backend_put,
  backend_delete, backend_invalidate,
}

pub record CacheService : Type 0 where
  pub records : Records
  pub hits : ℕ
  pub misses : ℕ
  pub stale : ℕ
  pub bypasses : ℕ
  pub saved_tokens : ℕ

-- `CacheService(InMemoryCacheBackend(), policy)`.
abbrev pub new_service : CacheService
new_service = record {
  records = [];
  hits = 0;
  misses = 0;
  stale = 0;
  bypasses = 0;
  saved_tokens = 0;
}

-- `CacheService._ttl`.
unfoldable pub ttl : CachePolicy → CacheClass → ℕ
ttl p exact = p.exact_ttl_seconds
ttl p retrieval = p.retrieval_ttl_seconds
ttl p tool = p.tool_ttl_seconds
ttl p parse = p.parse_ttl_seconds
ttl p semantic = p.semantic_ttl_seconds

abbrev pub is_class_tool : CacheClass → Bool
is_class_tool tool = true
is_class_tool _ = false

abbrev pub is_class_semantic : CacheClass → Bool
is_class_semantic semantic = true
is_class_semantic _ = false

abbrev pub is_write : CacheSideEffect → Bool
is_write side_write = true
is_write _ = false

abbrev pub is_pure : CacheSideEffect → Bool
is_pure side_pure = true
is_pure _ = false

-- `task_class in {"G0", "P1"}`.
abbrev pub is_light_task : TaskClass → Bool
is_light_task g0 = true
is_light_task p1 = true
is_light_task _ = false

abbrev pub below_threshold : ℕ → Option ℕ → Bool
below_threshold minimum none = true
below_threshold minimum (some s) = ltb s minimum

-- `CacheService._validate_put`.
unfoldable pub validate_put : CachePolicy → CachePutRequest → Result CacheError Unit
validate_put p r =
    if r.contains_secret
    then err cache_secret_denied
    else if r.contains_authorization_decision
    then err cache_authorization_denied
    else if not r.stable
    then err cache_unstable_denied
    else if is_write r.side_effect
    then err cache_side_effect_denied
    else if is_class_tool r.cache_class && not (is_pure r.side_effect)
    then err cache_tool_not_pure
    else if is_class_semantic r.cache_class && not (is_light_task r.task_class)
    then err cache_semantic_task_denied
    else if is_class_semantic r.cache_class
        && below_threshold p.semantic_minimum_similarity r.semantic_similarity
    then err cache_semantic_similarity_denied
    else ok tt

abbrev pub record_of : CachePolicy → CachePutRequest → CacheRecord
record_of p r = record {
  cache_entry_id = r.cache_entry_id;
  scope = r.scope;
  cache_class = r.cache_class;
  cache_key_sha256 = r.cache_key_sha256;
  value = r.value;
  value_sha256 = r.value_sha256;
  version_manifest = r.version_manifest;
  provenance = r.provenance;
  validation_state = valid;
  saved_tokens = r.saved_tokens;
  created_at = r.created_at;
  expires_at = record r.created_at {
    instant = r.created_at.instant + ttl p r.cache_class * 1000000;
  };
}

-- `CacheRecord(...)`, whose validator may raise.
unfoldable pub make_record : (String → String) → CacheRecord → Result CacheError CacheRecord
make_record digest r = if is_valid_record digest r then ok r else err record_invalid

-- The record that `put` returns and the dictionary that it leaves.
unfoldable pub put_records :
    (String → String)
    → CachePolicy
    → CachePutRequest
    → Records
    → Result CacheError (CacheRecord × Records)
unfolding backend_put
put_records digest p r records = validate_put p r >>= λ _.
    make_record digest (record_of p r) >>= λ made.
    backend_put made r.refresh records >>= λ written. ok (made, written)

abbrev pub after_put :
    CacheService
    → Result CacheError (CacheRecord × Records)
    → Result CacheError CacheRecord × CacheService
after_put s (ok (r, records)) = (ok r, record s { records = records })
after_put s (err e) = (err e, s)

-- `CacheService.put`.
unfoldable pub put :
    (String → String)
    → CachePolicy
    → CachePutRequest
    → CacheService
    → Result CacheError CacheRecord × CacheService
put digest p r s = after_put s (put_records digest p r s.records)

-- Equality of dictionaries, whose keys are distinct, whatever their order.
unfoldable pub holds_all : List (String × String) → List (String × String) → Bool
holds_all m [] = true
holds_all m ((k, v) ∷ rest) = elim (lookup str_eq k m) [
  | none ↦ false
  | some w ↦ str_eq w v && holds_all m rest
]

unfoldable pub same_manifest : List (String × String) → List (String × String) → Bool
same_manifest m n = length m == length n && holds_all m n

abbrev pub is_valid : CacheValidationState → Bool
is_valid valid = true
is_valid _ = false

-- The negation of the condition under which `get` deletes a record.
unfoldable pub is_usable : CacheGetRequest → CacheRecord → Bool
is_usable g r = not (
    leb r.expires_at.instant g.now.instant
    || (not (is_valid r.validation_state)
        || not (same_manifest r.version_manifest g.current_version_manifest)))

-- What `get` does once it has looked for the key.
unfoldable pub get_found :
    CacheGetRequest → Option CacheRecord → CacheService → Option CacheRecord × CacheService
get_found g none s = (none, record s { misses = s.misses + 1 })
get_found g (some r) s =
    if is_usable g r
    then (some r, record s { hits = s.hits + 1; saved_tokens = s.saved_tokens + r.saved_tokens })
    else (
      none,
      record s {
        records = backend_delete g.scope g.cache_class g.cache_key_sha256 s.records;
        stale = s.stale + 1;
        misses = s.misses + 1;
      },
    )

-- `CacheService.get`.
unfoldable pub get : CacheGetRequest → CacheService → Option CacheRecord × CacheService
get g s =
    if g.current_information_required
    then (none, record s { bypasses = s.bypasses + 1; misses = s.misses + 1 })
    else get_found g (backend_get g.scope g.cache_class g.cache_key_sha256 s.records) s

abbrev pub value_matches : Option String → Option String → Bool
value_matches none found = is_some found
value_matches (some v) none = false
value_matches (some v) (some w) = str_eq w v

-- The predicate that `CacheService.invalidate` hands to the backend.
unfoldable pub has_version : String → Option String → CacheRecord → Bool
has_version name v r = value_matches v (lookup str_eq name r.version_manifest)

-- `CacheService.invalidate`.
unfoldable pub invalidate : String → Option String → CacheService → ℕ × CacheService
invalidate name v s =
    let (n, kept) = backend_invalidate (has_version name v) s.records in
    (n, record s { records = kept })

-- `CacheService.metrics`.
unfoldable pub metrics : CacheService → CacheMetrics
metrics s = record {
  hits = s.hits;
  misses = s.misses;
  stale_rejections = s.stale;
  bypasses = s.bypasses;
  saved_tokens = s.saved_tokens;
}
