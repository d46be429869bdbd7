-- ===== src/Cache/Runs.antt =====
-- Runs of the operations of `CacheService` in src/ndt_agents/cache/service.py.
use ndt_agents.Base.{
  Bool, true, false, Option, none, some, List, [], ◌∷◌, String, str_eq, ◌≡◌, refl, inl, inr,
  Bool-cases,
}
use ndt_agents.Result.{Result, ok, err, ok-injective}
use ndt_agents.Dict.{Each, Each-insert, Each-remove}
use ndt_agents.Cache.Models.{
  CachePolicy, CachePutRequest, CacheGetRequest, CacheRecord, is_valid_record,
}
use ndt_agents.Cache.Backend.{
  CacheError, cache_key_collision, Records, record_key, backend_get, put_over, backend_put,
  backend_delete, targets, delete_each, backend_invalidate,
}
use ndt_agents.Cache.Service.{
  CacheService, put_records, put, after_put, get, get_found, is_usable, has_version, invalidate,
}
use ndt_agents.Cache.Lookups.{same_key-Decides, put_records-ok, get_key}

pub data Operation : Type 0 where
  putting : CachePutRequest → Operation
  getting : CacheGetRequest → Operation
  invalidating : String → Option String → Operation

module _ (digest : String → String) (p : CachePolicy) where
  unfoldable pub step : Operation → CacheService → CacheService
  step (putting r) s = (put digest p r s).1
  step (getting g) s = (get g s).1
  step (invalidating name v) s = (invalidate name v s).1

  -- The operations in order, each on what the one before left.
  unfoldable pub run : List Operation → CacheService → CacheService
  run [] s = s
  run (o ∷ os) s = run os (step o s)

module _ (digest : String → String) where
  -- A record under its own key, that passed its validator.
  abbrev pub IsKept : List String → CacheRecord → Type 0
  IsKept k r = (k ≡ record_key r) × (is_valid_record digest r ≡ true)

  abbrev pub AllKept : CacheService → Type 0
  AllKept s = Each IsKept s.records

  put_over-Each :
      (found : Option CacheRecord) (refresh : Bool) (made : CacheRecord) (before : Records)
      {after : Records}
      → is_valid_record digest made ≡ true
      → Each IsKept before
      → put_over found made refresh before ≡ ok after
      → Each IsKept after
  unfolding put_over
  put_over-Each none refresh made before valid all h =
      rw (← ok-injective h)
        (Each-insert same_key-Decides IsKept (record_key made) made before (refl, valid) all)
  put_over-Each (some r) true made before valid all h =
      rw (← ok-injective h)
        (Each-insert same_key-Decides IsKept (record_key made) made before (refl, valid) all)
  put_over-Each (some r) false made before valid all h =
      elim (Bool-cases (str_eq r.value_sha256 made.value_sha256)) [
        | inl same ↦
            let h' : ◌≡◌ {A = Result CacheError Records} (ok before) (ok _) = rw same at h in
            rw (← ok-injective h') all
        | inr differs ↦
            let h' : ◌≡◌ {A = Result CacheError Records} (err cache_key_collision) (ok _) =
              rw differs at h in
            cc
      ]

  after_put-AllKept :
      (p : CachePolicy) (r : CachePutRequest) (s : CacheService)
      (out : Result CacheError (CacheRecord × Records))
      → put_records digest p r s.records ≡ out
      → AllKept s
      → AllKept (after_put s out).1
  unfolding backend_put
  after_put-AllKept p r s (ok (made, after)) e all =
      let (checked, built, valid, wrote) = put_records-ok digest p r s.records e in
      put_over-Each _ r.refresh made s.records valid all wrote
  after_put-AllKept p r s (err x) e all = all

  get_found-AllKept :
      (g : CacheGetRequest) (found : Option CacheRecord) (s : CacheService)
      → AllKept s
      → AllKept (get_found g found s).1
  unfolding get_found backend_delete
  get_found-AllKept g none s all = all
  get_found-AllKept g (some r) s all = elim (Bool-cases (is_usable g r)) [
    | inl u ↦ rw u all
    | inr u ↦ rw u (Each-remove same_key-Decides IsKept (get_key g) s.records all)
  ]

  delete_each-AllKept :
      (ks : List (List String)) (d : Records) → Each IsKept d → Each IsKept (delete_each ks d)
  delete_each-AllKept [] d all = all
  delete_each-AllKept (k ∷ ks) d all =
      delete_each-AllKept ks _ (Each-remove same_key-Decides IsKept k d all)

  step-AllKept :
      (p : CachePolicy) (o : Operation) (s : CacheService) → AllKept s → AllKept (step digest p o s)
  unfolding step put get invalidate backend_invalidate get_found is_usable
  step-AllKept p (putting r) s all =
      after_put-AllKept p r s (put_records digest p r s.records) refl all
  step-AllKept p (getting g) s all = elim (Bool-cases g.current_information_required) [
    | inl c ↦ rw c all
    | inr c ↦
        rw c (
          get_found-AllKept g (backend_get g.scope g.cache_class g.cache_key_sha256 s.records) s
            all)
  ]
  step-AllKept p (invalidating name v) s all =
      delete_each-AllKept (targets (has_version name v) s.records) s.records all

  pub run-AllKept :
      (p : CachePolicy) (os : List Operation) (s : CacheService)
      → AllKept s
      → AllKept (run digest p os s)
  unfolding run
  run-AllKept p [] s all = all
  run-AllKept p (o ∷ os) s all = run-AllKept p os (step digest p o s) (step-AllKept p o s all)
