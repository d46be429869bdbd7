-- ===== src/Cache/Tests.antt =====
-- The cache at concrete requests, and the theorems applied to them.
use ndt_agents.Base.{
  ◌+◌, ◌≡◌, ◌≢◌, refl, inl, inr, true, false, none, some, List, [], ◌∷◌, String, length, eq_iff,
}
use ndt_agents.Result.{ok}
use ndt_agents.Dict.{lookup}
use ndt_agents.Budget.Policy.{g0}
use ndt_agents.Budget.Tools.{is_sha256, all_hex}
use ndt_agents.Cache.Models.{
  TenantScope, exact, CachePolicy, CachePutRequest, CacheGetRequest, CacheRecord, side_pure,
  is_valid_policy, is_valid_put, is_valid_record,
}
use ndt_agents.Cache.Backend.{
  same_key, cache_class_value, backend_key, record_key, backend_get, put_over, backend_put,
}
use ndt_agents.Cache.Service.{
  CacheService, new_service, validate_put, record_of, make_record, put_records, put, get, get_found,
  is_usable, holds_all, same_manifest, invalidate, metrics, ttl,
}
use ndt_agents.Cache.Lookups.{put_key, answer, Stores, put-get}
use ndt_agents.Cache.Runs.{putting, getting, step, run}
use ndt_agents.Cache.Served.{Serves, get-Serves}
use ndt_agents.Cache.Isolation.{tenants_are_isolated}
use ndt_agents.Cache.Counted.{Counts, metrics_count_gets}
use ndt_agents.Cache.Admission.{IsAdmissible, put-IsAdmissible}
use ndt_agents.Cache.Entry.{IsAdmissible-put}
use ndt_agents.Cache.Invalidation.{MadeUnder, invalidate_lem}

abbrev sha : String
sha = "0123456789abcdef0123456789abcdef0123456789abcdef0123456789abcdef"

abbrev digest : String → String
digest v = sha

abbrev policy : CachePolicy
policy = record {
  policy_version = "v";
  exact_ttl_seconds = 60;
  retrieval_ttl_seconds = 60;
  tool_ttl_seconds = 60;
  parse_ttl_seconds = 60;
  semantic_ttl_seconds = 60;
  semantic_minimum_similarity = 8556839292003942;
}

abbrev scope : String → TenantScope
scope tenant = record {
  tenant_id = tenant;
  project_id = "p";
  user_id = "u";
  role_codes = "r" ∷ [];
  permission_version = "1";
}

abbrev request : CachePutRequest
request = record {
  cache_entry_id = "e";
  scope = scope "a";
  cache_class = exact;
  cache_key_sha256 = sha;
  value = "{}";
  value_sha256 = sha;
  version_manifest = ("model", "1") ∷ [];
  provenance = ("source", "s") ∷ [];
  contains_secret = false;
  contains_authorization_decision = false;
  stable = true;
  side_effect = side_pure;
  task_class = g0;
  semantic_similarity = none;
  saved_tokens = 9;
  refresh = false;
  created_at = record { instant = 1000; has_offset = true };
}

abbrev asked : String → CacheGetRequest
asked tenant = record {
  scope = scope tenant;
  cache_class = exact;
  cache_key_sha256 = sha;
  current_version_manifest = ("model", "1") ∷ [];
  current_information_required = false;
  now = record { instant = 2000; has_offset = true };
}

abbrev made : CacheRecord
made = record_of policy request

abbrev stored : CacheService
stored = record new_service { records = (put_key request, made) ∷ [] }

puts : put digest policy request new_service ≡ (ok made, stored)
unfolding put put_records validate_put make_record is_valid_record is_sha256 all_hex backend_put
    put_over same_key record_key backend_key cache_class_value ttl
puts = refl

-- The same get is a hit before the minute is over, and a stale miss when it is.
hits : (get (asked "a") stored).0 ≡ some made
unfolding get get_found backend_get is_usable same_manifest holds_all same_key backend_key
    cache_class_value ttl
hits = refl

run_hits : (get (asked "a") (run digest policy (putting request ∷ []) new_service)).0 ≡ some made
unfolding run step put put_records validate_put make_record is_valid_record is_sha256 all_hex
    backend_put put_over same_key record_key backend_key cache_class_value ttl get get_found
    backend_get is_usable same_manifest holds_all
run_hits = refl

valid_policy : is_valid_policy policy ≡ true
unfolding is_valid_policy
valid_policy = refl

valid_request : is_valid_put digest request ≡ true
unfolding is_valid_put is_sha256 all_hex
valid_request = refl

put-get_example :
    (kept : CacheRecord) × Stores false (put_key request) [] made kept
    × ((get (asked "a") stored).0 ≡ answer (asked "a") kept)
put-get_example = put-get digest policy request new_service made stored (asked "a") puts refl refl

get-Serves_example : Serves digest (asked "a") made × (false ≡ false)
get-Serves_example = get-Serves digest policy (putting request ∷ []) (asked "a") made run_hits

a_is_not_b : ◌≢◌ {A = String} "a" "b"
a_is_not_b e = let t = (eq_iff "a" "b").1 e in let f : false ≡ true = t in cc

tenants_are_isolated_example :
    (get (asked "b") (run digest policy (putting request ∷ getting (asked "a") ∷ []) new_service)).0
    ≡ (get (asked "b") new_service).0
tenants_are_isolated_example =
    tenants_are_isolated digest policy (asked "b") (putting request ∷ getting (asked "a") ∷ [])
      new_service (a_is_not_b, (a_is_not_b, tt))

metrics_count_gets_example : Counts 2 (
    metrics (
      run digest policy
        (putting request ∷ getting (asked "a") ∷ getting (asked "b") ∷ [])
        new_service))
metrics_count_gets_example =
    metrics_count_gets digest policy
      (putting request ∷ getting (asked "a") ∷ getting (asked "b") ∷ [])

put-IsAdmissible_example : IsAdmissible policy request
put-IsAdmissible_example = put-IsAdmissible digest policy request new_service made stored puts

request-IsAdmissible : IsAdmissible policy request
request-IsAdmissible = record {
  no_secret = refl;
  no_decision = refl;
  is_stable = refl;
  no_write = λ e. cc;
  pure_tool = λ e. refl;
  light_task = λ e. inl refl;
  similar = λ e. cc;
}

IsAdmissible-put_example : put digest policy request new_service ≡ (ok made, stored)
IsAdmissible-put_example =
    IsAdmissible-put digest policy request new_service valid_policy valid_request
      request-IsAdmissible (inr refl)

invalidate_lem_example :
    let s = run digest policy (putting request ∷ []) new_service in
    let end = invalidate "model" none s in
    ((k : List String) (r : CacheRecord)
      → lookup same_key k end.1.records ≡ some r
      → (lookup same_key k s.records ≡ some r) × (MadeUnder "model" none r → ⊥))
    × ((k : List String) (r : CacheRecord)
        → lookup same_key k s.records ≡ some r
        → (MadeUnder "model" none r → ⊥)
        → lookup same_key k end.1.records ≡ some r)
    × (end.0 + length end.1.records ≡ length s.records)
invalidate_lem_example = invalidate_lem digest policy (putting request ∷ []) "model" none
