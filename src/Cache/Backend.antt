-- ===== src/Cache/Backend.antt =====
-- `InMemoryCacheBackend` of src/ndt_agents/cache/service.py: a dictionary under the key of the
-- scope, the class and the digest.
use ndt_agents.Base.{
  ℕ, Bool, true, false, ◌&&◌, if◌then◌else◌, Option, none, some, List, [], ◌∷◌, String, length,
  str_eq,
}
use ndt_agents.Result.{Result, ok, err}
use ndt_agents.Dict.{lookup, insert, remove}
use ndt_agents.Cache.Models.{
  TenantScope, CacheClass, exact, retrieval, tool, parse, semantic, CacheRecord,
}

pub data CacheError : Type 0 where
  cache_key_collision cache_secret_denied cache_authorization_denied cache_unstable_denied
        cache_side_effect_denied cache_tool_not_pure cache_semantic_task_denied
        cache_semantic_similarity_denied record_invalid :
      CacheError

abbrev pub Records : Type 0
Records = List (List String × CacheRecord)

-- Equality of tuples of strings.
unfoldable pub same_key : List String → List String → Bool
same_key [] [] = true
same_key [] (b ∷ ys) = false
same_key (a ∷ xs) [] = false
same_key (a ∷ xs) (b ∷ ys) = str_eq a b && same_key xs ys

-- `cache_class.value`.
unfoldable pub cache_class_value : CacheClass → String
cache_class_value exact = "EXACT"
cache_class_value retrieval = "RETRIEVAL"
cache_class_value tool = "TOOL"
cache_class_value parse = "PARSE"
cache_class_value semantic = "SEMANTIC"

-- `_backend_key`.
unfoldable pub backend_key : TenantScope → CacheClass → String → List String
backend_key scope c key =
    scope.tenant_id
    ∷ scope.project_id
    ∷ scope.user_id
    ∷ scope.permission_version
    ∷ cache_class_value c
    ∷ key
    ∷ []

unfoldable pub record_key : CacheRecord → List String
record_key r = backend_key r.scope r.cache_class r.cache_key_sha256

-- `InMemoryCacheBackend.get`.
unfoldable pub backend_get : TenantScope → CacheClass → String → Records → Option CacheRecord
backend_get scope c key records = lookup same_key (backend_key scope c key) records

-- What `InMemoryCacheBackend.put` does once it has looked for the key.
unfoldable pub put_over :
    Option CacheRecord → CacheRecord → Bool → Records → Result CacheError Records
put_over none r refresh records = ok (insert same_key (record_key r) r records)
put_over (some existing) r true records = ok (insert same_key (record_key r) r records)
put_over (some existing) r false records =
    if str_eq existing.value_sha256 r.value_sha256 then ok records else err cache_key_collision

-- `InMemoryCacheBackend.put`.
unfoldable pub backend_put : CacheRecord → Bool → Records → Result CacheError Records
unfolding put_over
backend_put r refresh records = put_over (lookup same_key (record_key r) records) r refresh records

-- `InMemoryCacheBackend.delete`.
unfoldable pub backend_delete : TenantScope → CacheClass → String → Records → Records
backend_delete scope c key records = remove same_key (backend_key scope c key) records

-- The keys of the records that pass a test.
abbrev pub targets : (CacheRecord → Bool) → Records → List (List String)
targets p [] = []
targets p ((k, r) ∷ records) = let rest = targets p records in if p r then k ∷ rest else rest

-- `del` of each of the keys, in order.
abbrev pub delete_each : List (List String) → Records → Records
delete_each [] records = records
delete_each (k ∷ ks) records = delete_each ks (remove same_key k records)

-- `InMemoryCacheBackend.invalidate`: how many went, and the records that stay.
unfoldable pub backend_invalidate : (CacheRecord → Bool) → Records → ℕ × Records
backend_invalidate p records =
    let keys = targets p records in (length keys, delete_each keys records)
