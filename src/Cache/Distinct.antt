-- ===== src/Cache/Distinct.antt =====
-- The records of `CacheService` in src/ndt_agents/cache/service.py have distinct keys, and what an
-- invalidation leaves of them.
use ndt_agents.Base.{
  ◌+◌, Bool, true, false, not, Option, none, some, List, [], ◌∷◌, String, str_eq, ◌≡◌, refl, ap,
  ◌∙◌, inl, inr, Bool-cases, arith, length,
}
use ndt_agents.Result.{Result, ok, err, ok-injective}
use ndt_agents.Dict.{
  lookup, insert, remove, keep, Each, Each-insert, Each-remove, Each-lookup, Each-keep,
}
use ndt_agents.Cache.Models.{CachePolicy, CachePutRequest, CacheGetRequest, CacheRecord}
use ndt_agents.Cache.Backend.{
  CacheError, cache_key_collision, Records, same_key, record_key, backend_get, put_over,
  backend_put, backend_delete, targets, delete_each, backend_invalidate,
}
use ndt_agents.Cache.Service.{
  CacheService, put_records, put, after_put, get, get_found, is_usable, has_version, invalidate,
}
use ndt_agents.Cache.Lookups.{same_key-Decides, put_records-ok, get_key}
use ndt_agents.Cache.Runs.{Operation, putting, getting, invalidating, step, run}

abbrev pub Distinct : Records → Type 0
Distinct [] = Unit
Distinct ((k, r) ∷ d) = Each (λ l x. same_key k l ≡ false) d × Distinct d

insert-Distinct :
    (k : List String) (r : CacheRecord) (d : Records)
    → Distinct d
    → Distinct (insert same_key k r d)
insert-Distinct k r [] h = (tt, tt)
insert-Distinct k r ((l, x) ∷ d) h = elim (Bool-cases (same_key l k)) [
  | inl e ↦ rw e h
  | inr n ↦ rw n (
    Each-insert same_key-Decides (λ m y. same_key l m ≡ false) k r d n h.0,
    insert-Distinct k r d h.1,
  )
]

remove-Distinct : (k : List String) (d : Records) → Distinct d → Distinct (remove same_key k d)
remove-Distinct k [] h = tt
remove-Distinct k ((l, x) ∷ d) h = elim (Bool-cases (same_key l k)) [
  | inl e ↦ rw e h.1
  | inr n ↦
      rw n (
        Each-remove same_key-Decides (λ m y. same_key l m ≡ false) k d h.0,
        remove-Distinct k d h.1,
      )
]

delete_each-Distinct :
    (ks : List (List String)) (d : Records) → Distinct d → Distinct (delete_each ks d)
delete_each-Distinct [] d h = h
delete_each-Distinct (k ∷ ks) d h = delete_each-Distinct ks _ (remove-Distinct k d h)

put_over-Distinct :
    (found : Option CacheRecord) (refresh : Bool) (made : CacheRecord) (before : Records)
    {after : Records}
    → Distinct before
    → put_over found made refresh before ≡ ok after
    → Distinct after
unfolding put_over
put_over-Distinct none refresh made before d h =
    rw (← ok-injective h) (insert-Distinct (record_key made) made before d)
put_over-Distinct (some r) true made before d h =
    rw (← ok-injective h) (insert-Distinct (record_key made) made before d)
put_over-Distinct (some r) false made before d h =
    elim (Bool-cases (str_eq r.value_sha256 made.value_sha256)) [
      | inl same ↦
          let h' : ◌≡◌ {A = Result CacheError Records} (ok before) (ok _) = rw same at h in
          rw (← ok-injective h') d
      | inr differs ↦
          let h' : ◌≡◌ {A = Result CacheError Records} (err cache_key_collision) (ok _) =
            rw differs at h in
          cc
    ]

after_put-Distinct :
    (digest : String → String) (p : CachePolicy) (r : CachePutRequest) (s : CacheService)
    (out : Result CacheError (CacheRecord × Records))
    → put_records digest p r s.records ≡ out
    → Distinct s.records
    → Distinct (after_put s out).1.records
unfolding backend_put
after_put-Distinct digest p r s (ok (made, after)) e d =
    let (checked, built, valid, wrote) = put_records-ok digest p r s.records e in
    put_over-Distinct _ r.refresh made s.records d wrote
after_put-Distinct digest p r s (err x) e d = d

get_found-Distinct :
    (g : CacheGetRequest) (found : Option CacheRecord) (s : CacheService)
    → Distinct s.records
    → Distinct (get_found g found s).1.records
unfolding get_found backend_delete
get_found-Distinct g none s d = d
get_found-Distinct g (some r) s d = elim (Bool-cases (is_usable g r)) [
  | inl u ↦ rw u d
  | inr u ↦ rw u (remove-Distinct (get_key g) s.records d)
]

step-Distinct :
    (digest : String → String) (p : CachePolicy) (o : Operation) (s : CacheService)
    → Distinct s.records
    → Distinct (step digest p o s).records
unfolding step put get invalidate backend_invalidate get_found is_usable
step-Distinct digest p (putting r) s d =
    after_put-Distinct digest p r s (put_records digest p r s.records) refl d
step-Distinct digest p (getting g) s d = elim (Bool-cases g.current_information_required) [
  | inl c ↦ rw c d
  | inr c ↦
      rw c
        (get_found-Distinct g (backend_get g.scope g.cache_class g.cache_key_sha256 s.records) s d)
]
step-Distinct digest p (invalidating name v) s d =
    delete_each-Distinct (targets (has_version name v) s.records) s.records d

-- After any operations, no key occurs twice, if none did before.
pub run-Distinct :
    (digest : String → String) (p : CachePolicy) (os : List Operation) (s : CacheService)
    → Distinct s.records
    → Distinct (run digest p os s).records
unfolding run
run-Distinct digest p [] s d = d
run-Distinct digest p (o ∷ os) s d =
    run-Distinct digest p os (step digest p o s) (step-Distinct digest p o s d)

remove_front :
    (k : List String) (r : CacheRecord) (d : Records) → remove same_key k ((k, r) ∷ d) ≡ d
remove_front k r d = rw (same_key-Decides.complete k) refl

module _ (p : CacheRecord → Bool) where
  -- No key of this list is that of the first entry.
  abbrev Apart : List String → List (List String) → Type 0
  Apart k [] = Unit
  Apart k (l ∷ ks) = (same_key k l ≡ false) × Apart k ks

  targets-Apart :
      (k : List String) (d : Records) → Each (λ l x. same_key k l ≡ false) d → Apart k (targets p d)
  targets-Apart k [] h = tt
  targets-Apart k ((l, x) ∷ d) h = elim (Bool-cases (p x)) [
    | inl e ↦ rw e (h.0, targets-Apart k d h.1)
    | inr n ↦ rw n (targets-Apart k d h.1)
  ]

  delete_each-front :
      (k : List String) (r : CacheRecord) (ks : List (List String)) (d : Records)
      → Apart k ks
      → delete_each ks ((k, r) ∷ d) ≡ (k, r) ∷ delete_each ks d
  delete_each-front k r [] d h = refl
  delete_each-front k r (l ∷ ks) d h = rw h.0 (delete_each-front k r ks _ h.1)

  -- Deleting each target leaves the records that do not pass the test.
  pub delete_each-targets :
      (d : Records) → Distinct d → delete_each (targets p d) d ≡ keep (λ r. not (p r)) d
  delete_each-targets [] h = refl
  delete_each-targets ((k, r) ∷ d) h = elim (Bool-cases (p r)) [
    | inl e ↦ rw e (ap (delete_each (targets p d)) (remove_front k r d) ∙ delete_each-targets d h.1)
    | inr n ↦ rw n (
        delete_each-front k r (targets p d) d (targets-Apart k d h.0)
        ∙ ap (λ rest. (k, r) ∷ rest) (delete_each-targets d h.1))
  ]

  pub length-targets :
      (d : Records) → length (targets p d) + length (keep (λ r. not (p r)) d) ≡ length d
  length-targets [] = omega arith
  length-targets ((k, r) ∷ d) = elim (Bool-cases (p r)) [
    | inl e ↦ rw e (omega (arith, length-targets d))
    | inr n ↦ rw n (omega (arith, length-targets d))
  ]

  -- What is found among the records that stay was there.
  pub lookup-keep :
      (k : List String) (r : CacheRecord) (d : Records)
      → Distinct d
      → lookup same_key k (keep (λ x. not (p x)) d) ≡ some r
      → lookup same_key k d ≡ some r
  lookup-keep k r [] h found = cc
  lookup-keep k r ((l, x) ∷ d) h found = elim (Bool-cases (p x)) [
    | inr n ↦ elim (Bool-cases (same_key l k)) [
      | inl s ↦
          let found' : ◌≡◌ {A = Option CacheRecord} (some x) (some r) = rw (n, s) at found in
          rw s found'
      | inr o ↦
          let found' : lookup same_key k (keep (λ y. not (p y)) d) ≡ some r = rw (n, o) at found in
          rw o (lookup-keep k r d h.1 found')
    ]
    | inl e ↦
        let found' : lookup same_key k (keep (λ y. not (p y)) d) ≡ some r = rw e at found in
        let apart : same_key l k ≡ false =
          Each-lookup same_key-Decides (λ m y. same_key l m ≡ false) k _
            (Each-keep (λ m y. same_key l m ≡ false) (λ y. not (p y)) d h.0) found' in
        rw apart (lookup-keep k r d h.1 found')
  ]
