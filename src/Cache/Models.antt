-- ===== src/Cache/Models.antt =====
-- The contracts of src/ndt_agents/cache/models.py, and `TenantScope` of
-- src/ndt_agents/contracts/v1.py. A UUID is its canonical text, a value its canonical JSON text,
-- and SHA-256 of it the argument `digest`. A float of [0, 1] is counted in units of 2^-53, rounded
-- down, which keeps its order with a threshold of at least 1/2; a time is in microseconds.
use Prim.Native.String.{count}
use ndt_agents.Base.{
  ℕ, Bool, true, ◌&&◌, Option, none, some, List, String, length, ltb, leb, str_eq,
}
use ndt_agents.Budget.Policy.{TaskClass}
use ndt_agents.Budget.Tools.{is_sha256}

pub record TenantScope : Type 0 where
  pub tenant_id : String
  pub project_id : String
  pub user_id : String
  pub role_codes : List String
  pub permission_version : String

pub data CacheClass : Type 0 where
  exact retrieval tool parse semantic : CacheClass

pub data CacheValidationState : Type 0 where
  valid stale rejected : CacheValidationState

pub data CacheSideEffect : Type 0 where
  side_pure side_read side_write : CacheSideEffect

pub record Datetime : Type 0 where
  pub instant : ℕ
  pub has_offset : Bool

pub record CachePolicy : Type 0 where
  pub policy_version : String
  pub exact_ttl_seconds : ℕ
  pub retrieval_ttl_seconds : ℕ
  pub tool_ttl_seconds : ℕ
  pub parse_ttl_seconds : ℕ
  pub semantic_ttl_seconds : ℕ
  pub semantic_minimum_similarity : ℕ

pub record CachePutRequest : Type 0 where
  pub cache_entry_id : String
  pub scope : TenantScope
  pub cache_class : CacheClass
  pub cache_key_sha256 : String
  pub value : String
  pub value_sha256 : String
  pub version_manifest : List (String × String)
  pub provenance : List (String × String)
  pub contains_secret : Bool
  pub contains_authorization_decision : Bool
  pub stable : Bool
  pub side_effect : CacheSideEffect
  pub task_class : TaskClass
  pub semantic_similarity : Option ℕ
  pub saved_tokens : ℕ
  pub refresh : Bool
  pub created_at : Datetime

pub record CacheGetRequest : Type 0 where
  pub scope : TenantScope
  pub cache_class : CacheClass
  pub cache_key_sha256 : String
  pub current_version_manifest : List (String × String)
  pub current_information_required : Bool
  pub now : Datetime

pub record CacheRecord : Type 0 where
  pub cache_entry_id : String
  pub scope : TenantScope
  pub cache_class : CacheClass
  pub cache_key_sha256 : String
  pub value : String
  pub value_sha256 : String
  pub version_manifest : List (String × String)
  pub provenance : List (String × String)
  pub validation_state : CacheValidationState
  pub saved_tokens : ℕ
  pub created_at : Datetime
  pub expires_at : Datetime

pub record CacheMetrics : Type 0 where
  pub hits : ℕ
  pub misses : ℕ
  pub stale_rejections : ℕ
  pub bypasses : ℕ
  pub saved_tokens : ℕ

abbrev between : ℕ → ℕ → ℕ → Bool
between low high n = leb low n && leb n high

-- The bounds of the fields of `CachePolicy`; 8556839292003942 * 2^-53 is the float 0.95.
unfoldable pub is_valid_policy : CachePolicy → Bool
is_valid_policy p =
    between 1 128 (count p.policy_version)
    && (between 1 86400 p.exact_ttl_seconds
        && (between 1 21600 p.retrieval_ttl_seconds
            && (between 1 2592000 p.tool_ttl_seconds
                && (between 1 7776000 p.parse_ttl_seconds
                    && (between 1 3600 p.semantic_ttl_seconds
                        && between 8556839292003942 9007199254740992
                            p.semantic_minimum_similarity)))))

abbrev similarity_in_range : Option ℕ → Bool
similarity_in_range none = true
similarity_in_range (some n) = leb n 9007199254740992

-- The bounds of the fields of `CachePutRequest`, and its `validate_integrity`.
unfoldable pub is_valid_put : (String → String) → CachePutRequest → Bool
is_valid_put digest r =
    is_sha256 r.cache_key_sha256
    && (is_sha256 r.value_sha256
        && (between 1 64 (length r.version_manifest)
            && (between 1 64 (length r.provenance)
                && (similarity_in_range r.semantic_similarity
                    && (str_eq (digest r.value) r.value_sha256 && r.created_at.has_offset)))))

-- The bounds of the fields of `CacheGetRequest`, and its `validate_now`.
unfoldable pub is_valid_get : CacheGetRequest → Bool
is_valid_get r =
    is_sha256 r.cache_key_sha256
    && (between 1 64 (length r.current_version_manifest) && r.now.has_offset)

-- The bounds of the fields of `CacheRecord`, and its `validate_record`.
unfoldable pub is_valid_record : (String → String) → CacheRecord → Bool
is_valid_record digest r =
    is_sha256 r.cache_key_sha256
    && (is_sha256 r.value_sha256
        && (str_eq (digest r.value) r.value_sha256
            && ltb r.created_at.instant r.expires_at.instant))
