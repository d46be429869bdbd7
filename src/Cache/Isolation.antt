-- ===== src/Cache/Isolation.antt =====
-- Tenants do not see each other's records in `CacheService` of src/ndt_agents/cache/service.py.
use ndt_agents.Base.{
  Bool, true, false, Option, none, some, List, [], ◌∷◌, String, str_eq, eq_iff, ◌≡◌, refl, ◌∙◌, ◌≢◌,
  inl, inr, Bool-cases,
}
use ndt_agents.Result.{Result, ok, err, ok-injective}
use ndt_agents.Dict.{lookup-insert-other, lookup-remove-other, lookup}
use ndt_agents.Cache.Models.{CachePolicy, CachePutRequest, CacheGetRequest, CacheRecord}
use ndt_agents.Cache.Backend.{
  CacheError, cache_key_collision, Records, same_key, backend_key, record_key, backend_get,
  put_over, backend_put, backend_delete,
}
use ndt_agents.Cache.Service.{CacheService, put_records, put, after_put, get, get_found, is_usable}
use ndt_agents.Cache.Lookups.{same_key-Decides, put_records-ok, get_key, put_key}
use ndt_agents.Cache.Served.{get-answer_of}
use ndt_agents.Cache.Runs.{Operation, putting, getting, invalidating, step, run}

-- Puts and gets whose scope has another tenant.
abbrev pub IsForeign : String → Operation → Type 0
IsForeign tenant (putting r) = r.scope.tenant_id ≢ tenant
IsForeign tenant (getting g) = g.scope.tenant_id ≢ tenant
IsForeign tenant (invalidating name v) = ⊥

abbrev pub AllForeign : String → List Operation → Type 0
AllForeign tenant [] = Unit
AllForeign tenant (o ∷ os) = IsForeign tenant o × AllForeign tenant os

first_differs : (a b : String) (xs ys : List String) → a ≢ b → same_key (a ∷ xs) (b ∷ ys) ≡ false
unfolding same_key
first_differs a b xs ys n = elim (Bool-cases (str_eq a b)) [
  | inl e ↦ absurd (n ((eq_iff a b).0 e))
  | inr e ↦ rw e refl
]

put_over-other :
    (found : Option CacheRecord) (refresh : Bool) (made : CacheRecord) (before : Records)
    (k : List String) {after : Records}
    → same_key (record_key made) k ≡ false
    → put_over found made refresh before ≡ ok after
    → lookup same_key k after ≡ lookup same_key k before
unfolding put_over
put_over-other none refresh made before k n h =
    rw (← ok-injective h) (lookup-insert-other same_key-Decides (record_key made) k made before n)
put_over-other (some r) true made before k n h =
    rw (← ok-injective h) (lookup-insert-other same_key-Decides (record_key made) k made before n)
put_over-other (some r) false made before k n h =
    elim (Bool-cases (str_eq r.value_sha256 made.value_sha256)) [
      | inl same ↦
          let h' : ◌≡◌ {A = Result CacheError Records} (ok before) (ok _) = rw same at h in
          rw (← ok-injective h') refl
      | inr differs ↦
          let h' : ◌≡◌ {A = Result CacheError Records} (err cache_key_collision) (ok _) =
            rw differs at h in
          cc
    ]

after_put-other :
    (digest : String → String) (p : CachePolicy) (r : CachePutRequest) (s : CacheService)
    (k : List String) (out : Result CacheError (CacheRecord × Records))
    → same_key (put_key r) k ≡ false
    → put_records digest p r s.records ≡ out
    → lookup same_key k (after_put s out).1.records ≡ lookup same_key k s.records
unfolding backend_put record_key
after_put-other digest p r s k (ok (made, after)) n e =
    let (checked, built, passed, wrote) = put_records-ok digest p r s.records e in
    put_over-other _ r.refresh made s.records k (rw built n) wrote
after_put-other digest p r s k (err x) n e = refl

get_found-other :
    (g : CacheGetRequest) (found : Option CacheRecord) (s : CacheService) (k : List String)
    → same_key (get_key g) k ≡ false
    → lookup same_key k (get_found g found s).1.records ≡ lookup same_key k s.records
unfolding get_found backend_delete
get_found-other g none s k n = refl
get_found-other g (some r) s k n = elim (Bool-cases (is_usable g r)) [
  | inl u ↦ rw u refl
  | inr u ↦ rw u (lookup-remove-other same_key-Decides (get_key g) k s.records n)
]

get-other :
    (g : CacheGetRequest) (s : CacheService) (k : List String)
    → same_key (get_key g) k ≡ false
    → lookup same_key k (get g s).1.records ≡ lookup same_key k s.records
unfolding get get_found is_usable
get-other g s k n = elim (Bool-cases g.current_information_required) [
  | inl c ↦ rw c refl
  | inr c ↦
      rw c
        (get_found-other g (backend_get g.scope g.cache_class g.cache_key_sha256 s.records) s k n)
]

module _ (digest : String → String) (p : CachePolicy) (g : CacheGetRequest) where
  run-foreign :
      (os : List Operation) (s : CacheService)
      → AllForeign g.scope.tenant_id os
      → lookup same_key (get_key g) (run digest p os s).records
        ≡ lookup same_key (get_key g) s.records
  unfolding run step put backend_key
  run-foreign [] s f = refl
  run-foreign (putting r ∷ os) s f =
      run-foreign os (step digest p (putting r) s) f.1
      ∙ after_put-other digest p r s (get_key g) (put_records digest p r s.records)
          (first_differs r.scope.tenant_id g.scope.tenant_id _ _ f.0) refl
  run-foreign (getting h ∷ os) s f =
      run-foreign os (step digest p (getting h) s) f.1
      ∙ get-other h s (get_key g) (first_differs h.scope.tenant_id g.scope.tenant_id _ _ f.0)
  run-foreign (invalidating name v ∷ os) s f = absurd f.0

-- Whatever puts and gets other tenants make in between, a get answers as it did before them.
pub tenants_are_isolated :
    (digest : String → String) (p : CachePolicy) (g : CacheGetRequest) (os : List Operation)
    (s : CacheService)
    → AllForeign g.scope.tenant_id os
    → (get g (run digest p os s)).0 ≡ (get g s).0
tenants_are_isolated digest p g os s foreign =
    simp
      (get-answer_of g (run digest p os s), get-answer_of g s, run-foreign digest p g os s foreign)
