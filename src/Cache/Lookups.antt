-- ===== src/Cache/Lookups.antt =====
-- What `CacheService.put` of src/ndt_agents/cache/service.py leaves for a later `get`.
use ndt_agents.Base.{
  Bool, true, false, if◌then◌else◌, Option, none, some, List, [], ◌∷◌, String, str_eq, eq_iff, ◌≡◌,
  refl, sym, ap, ◌∙◌, ◌⊎◌, inl, inr, Bool-cases,
}
use ndt_agents.Result.{Result, ok, err, >>=-eq-ok, ok-injective}
use ndt_agents.Dict.{Decides, lookup, lookup-insert}
use ndt_agents.Cache.Models.{
  CachePolicy, CachePutRequest, CacheGetRequest, CacheRecord, is_valid_record,
}
use ndt_agents.Cache.Backend.{
  CacheError, cache_key_collision, record_invalid, Records, same_key, backend_key, record_key,
  backend_get, put_over, backend_put,
}
use ndt_agents.Cache.Service.{
  CacheService, validate_put, record_of, make_record, put_records, put, after_put, get, get_found,
  is_usable,
}

same_key_sound : (a b : List String) → same_key a b ≡ true → a ≡ b
unfolding same_key
same_key_sound [] [] h = refl
same_key_sound [] (b ∷ ys) h = cc
same_key_sound (a ∷ xs) [] h = cc
same_key_sound (a ∷ xs) (b ∷ ys) h = elim (Bool-cases (str_eq a b)) [
  | inl e ↦
      let h' : same_key xs ys ≡ true = rw e at h in
      let front = (eq_iff a b).0 e in let back = same_key_sound xs ys h' in cc
  | inr e ↦ let h' : false ≡ true = rw e at h in cc
]

same_key_refl : (a : List String) → same_key a a ≡ true
unfolding same_key
same_key_refl [] = refl
same_key_refl (a ∷ xs) = rw ((eq_iff a a).1 refl, same_key_refl xs)

pub same_key-Decides : Decides same_key
same_key-Decides = record { sound = same_key_sound; complete = same_key_refl }

abbrev pub get_key : CacheGetRequest → List String
get_key g = backend_key g.scope g.cache_class g.cache_key_sha256

abbrev pub put_key : CachePutRequest → List String
put_key r = backend_key r.scope r.cache_class r.cache_key_sha256

-- The answer to a request for a record that is stored.
abbrev pub answer : CacheGetRequest → CacheRecord → Option CacheRecord
answer g r = if is_usable g r then some r else none

-- The record now under the key: the new one, or the one of the same value that stood there.
abbrev pub Stores : Bool → List String → Records → CacheRecord → CacheRecord → Type 0
Stores refresh key before made stored =
    ((stored ≡ made) × ((refresh ≡ true) ⊎ (lookup same_key key before ≡ none)))
    ⊎ ((refresh ≡ false)
        × (lookup same_key key before ≡ some stored)
        × (stored.value_sha256 ≡ made.value_sha256))

put_over-Stores :
    (found : Option CacheRecord) (refresh : Bool) (made : CacheRecord) (before : Records)
    {after : Records}
    → lookup same_key (record_key made) before ≡ found
    → put_over found made refresh before ≡ ok after
    → (stored : CacheRecord) × Stores refresh (record_key made) before made stored
      × (lookup same_key (record_key made) after ≡ some stored)
unfolding put_over
put_over-Stores none refresh made before e h = (
  made,
  inl (refl, inr e),
  rw (← ok-injective h) (lookup-insert same_key-Decides (record_key made) made before),
)
put_over-Stores (some r) true made before e h = (
  made,
  inl (refl, inl refl),
  rw (← ok-injective h) (lookup-insert same_key-Decides (record_key made) made before),
)
put_over-Stores (some r) false made before e h =
    elim (Bool-cases (str_eq r.value_sha256 made.value_sha256)) [
      | inl same ↦
          let h' : ◌≡◌ {A = Result CacheError Records} (ok before) (ok _) = rw same at h in
          (
            r,
            inr (refl, e, (eq_iff r.value_sha256 made.value_sha256).0 same),
            rw (← ok-injective h') e,
          )
      | inr differs ↦
          let h' : ◌≡◌ {A = Result CacheError Records} (err cache_key_collision) (ok _) =
            rw differs at h in
          cc
    ]

-- A put that returns: what it made, and what stands under the key afterwards.
abbrev Put :
    (String → String)
    → CachePolicy
    → CachePutRequest
    → CacheService
    → CacheRecord
    → CacheService
    → Type 0
Put digest p request s made s' =
    (made ≡ record_of p request)
    × (stored : CacheRecord) × Stores request.refresh (put_key request) s.records made stored
    × (lookup same_key (put_key request) s'.records ≡ some stored)

-- The steps of `put_records`, each of which returned.
pub put_records-ok :
    (digest : String → String) (p : CachePolicy) (request : CachePutRequest) (before : Records)
    {made : CacheRecord} {after : Records}
    → put_records digest p request before ≡ ok (made, after)
    → (validate_put p request ≡ ok tt)
      × (made ≡ record_of p request)
      × (is_valid_record digest made ≡ true)
      × (backend_put made request.refresh before ≡ ok after)
unfolding put_records make_record
put_records-ok digest p request before {made} {after} h =
    let (u, checked, h1) = >>=-eq-ok _ _ h in
    let (r, built, h2) = >>=-eq-ok (make_record digest (record_of p request)) _ h1 in
    let (written, wrote, h3) = >>=-eq-ok _ _ h2 in
    let pair = ok-injective h3 in
    let same : r ≡ made = ap (λ x. x.0) pair in
    let rest : written ≡ after = ap (λ x. x.1) pair in
    elim (Bool-cases (is_valid_record digest (record_of p request))) [
      | inl sound ↦
          let b : ◌≡◌ {A = Result CacheError CacheRecord} (ok (record_of p request)) (ok r) =
            rw sound at built in
          let made_is : made ≡ record_of p request = sym (ok-injective b ∙ same) in
          (checked, made_is, rw made_is sound, rw (← same, ← rest) wrote)
      | inr bad ↦
          let b : ◌≡◌ {A = Result CacheError CacheRecord} (err record_invalid) (ok r) =
            rw bad at built in
          cc
    ]

after_put-Put :
    (digest : String → String) (p : CachePolicy) (request : CachePutRequest) (s : CacheService)
    {made : CacheRecord} {s' : CacheService} (out : Result CacheError (CacheRecord × Records))
    → put_records digest p request s.records ≡ out
    → after_put s out ≡ (ok made, s')
    → Put digest p request s made s'
unfolding backend_put record_key
after_put-Put digest p request s {made} {s'} (ok (r, after)) e h =
    let (checked, built, valid, wrote) = put_records-ok digest p request s.records e in
    let returned : r ≡ made = ok-injective (ap (λ x. x.0) h) in
    let left : after ≡ s'.records = ap (λ x. x.1.records) h in
    let wrote' : put_over (lookup same_key (put_key request) s.records) (record_of p request)
          request.refresh s.records
        ≡ ok after =
      rw built at wrote in
    let (stored, how, found) =
      put_over-Stores _ request.refresh (record_of p request) s.records refl wrote' in
    (rw (← returned) built, stored, rw (← returned, built) how, rw (← left) found)
after_put-Put digest p request s (err x) e h = cc

pub put-Put :
    (digest : String → String) (p : CachePolicy) (request : CachePutRequest) (s : CacheService)
    {made : CacheRecord} {s' : CacheService}
    → put digest p request s ≡ (ok made, s')
    → Put digest p request s made s'
unfolding put
put-Put digest p request s h =
    after_put-Put digest p request s (put_records digest p request s.records) refl h

get_found-answer :
    (g : CacheGetRequest) (r : CacheRecord) (s : CacheService)
    → (get_found g (some r) s).0 ≡ answer g r
unfolding get_found
get_found-answer g r s = elim (Bool-cases (is_usable g r)) [ inl u ↦ rw u refl | inr u ↦ rw u refl ]

-- Where a put returned, a get of the same scope, class and key digest that does not require current
-- information (one that does is a bypass) answers from the record that is then stored: the one that the put made (if it was to refresh, or the key was free), or else
-- the earlier record of the same value digest. It returns that record unless the record has
-- expired, is not valid or was made under other versions, and then nothing.
pub put-get :
    (digest : String → String) (p : CachePolicy) (request : CachePutRequest) (s : CacheService)
    (made : CacheRecord) (s' : CacheService) (g : CacheGetRequest)
    → put digest p request s ≡ (ok made, s')
    → get_key g ≡ put_key request
    → g.current_information_required ≡ false
    → (stored : CacheRecord) × Stores request.refresh (put_key request) s.records made stored
      × ((get g s').0 ≡ answer g stored)
unfolding get backend_get get_found is_usable
put-get digest p request s made s' g h same current =
    let (built, stored, how, found) = put-Put digest p request s h in
    let now : (get g s').0 ≡ answer g stored =
      rw (current, same, found) (get_found-answer g stored s') in
    (stored, how, now)
