-- ===== src/Cache/Served.antt =====
-- What `CacheService.get` of src/ndt_agents/cache/service.py may return, and what its counters say.
use ndt_agents.Base.{
  ℕ, ◌<◌, Bool, true, false, not, ◌&&◌, ◌||◌, if◌then◌else◌, Option, none, some, List, String,
  eq_iff, ◌≡◌, refl, sym, ◌∙◌, inl, inr, Bool-cases, arith, leb,
}
use ndt_agents.Dict.{Each-lookup, lookup}
use ndt_agents.Cache.Models.{
  CachePolicy, CacheGetRequest, CacheRecord, CacheValidationState, valid, is_valid_record,
}
use ndt_agents.Cache.Backend.{same_key, record_key, backend_get}
use ndt_agents.Cache.Service.{
  CacheService, new_service, get, get_found, is_usable, is_valid, same_manifest,
}
use ndt_agents.Cache.Lookups.{same_key-Decides, get_key, answer}
use ndt_agents.Cache.Runs.{Operation, run, run-AllKept, IsKept}

-- The answer that depends on what stands under the key.
abbrev pub answer_of : CacheGetRequest → Option CacheRecord → Option CacheRecord
answer_of g none = none
answer_of g (some r) = answer g r

get_found-answer_of :
    (g : CacheGetRequest) (found : Option CacheRecord) (s : CacheService)
    → (get_found g found s).0 ≡ answer_of g found
unfolding get_found
get_found-answer_of g none s = refl
get_found-answer_of g (some r) s = elim (Bool-cases (is_usable g r)) [
  | inl u ↦ rw u refl
  | inr u ↦ rw u refl
]

pub get-answer_of :
    (g : CacheGetRequest) (s : CacheService)
    → (get g s).0 ≡ (
        if g.current_information_required
        then none
        else answer_of g (lookup same_key (get_key g) s.records))
unfolding get backend_get
get-answer_of g s = elim (Bool-cases g.current_information_required) [
  | inl c ↦ rw c refl
  | inr c ↦ simp (c, get_found-answer_of g (lookup same_key (get_key g) s.records) s)
]

-- A record that may answer a request: stored for its scope, class and key digest, with the digest
-- of its value, made under the versions that the request names, valid and not expired.
abbrev pub Serves : (String → String) → CacheGetRequest → CacheRecord → Type 0
Serves digest g r =
    (record_key r ≡ get_key g)
    × (digest r.value ≡ r.value_sha256)
    × (g.now.instant < r.expires_at.instant)
    × (r.validation_state ≡ valid)
    × (same_manifest r.version_manifest g.current_version_manifest ≡ true)

is_valid-valid : (v : CacheValidationState) → is_valid v ≡ true → v ≡ valid
is_valid-valid valid h = refl
is_valid-valid CacheValidationState.stale h = cc
is_valid-valid CacheValidationState.rejected h = cc

nor-true :
    (a b c : Bool) → not (a || (not b || not c)) ≡ true → (a ≡ false) × (b ≡ true) × (c ≡ true)
nor-true false true true h = (refl, refl, refl)
nor-true false true false h = cc
nor-true false false c h = cc
nor-true true b c h = cc

and4-true :
    (a b c d : Bool)
    → a && (b && (c && d)) ≡ true
    → (a ≡ true) × (b ≡ true) × (c ≡ true) × (d ≡ true)
and4-true true true true true h = (refl, refl, refl, refl)
and4-true true true true false h = cc
and4-true true true false d h = cc
and4-true true false c d h = cc
and4-true false b c d h = cc

not_late : (e n : ℕ) → leb e n ≡ false → n < e
not_late e n h = ground arith

usable-Serves :
    (digest : String → String) (g : CacheGetRequest) (r : CacheRecord)
    → IsKept digest (get_key g) r
    → is_usable g r ≡ true
    → Serves digest g r
unfolding is_usable is_valid_record
usable-Serves digest g r (key, good) usable =
    let (late, right, same) = nor-true _ _ _ usable in
    let (_, _, matches, _) = and4-true _ _ _ _ good in
    (
      sym key,
      (eq_iff (digest r.value) r.value_sha256).0 matches,
      not_late _ _ late,
      is_valid-valid r.validation_state right,
      same,
    )

answer-some :
    (g : CacheGetRequest) (found : Option CacheRecord) {r : CacheRecord}
    → answer_of g found ≡ some r
    → (found ≡ some r) × (is_usable g r ≡ true)
answer-some g none h = cc
answer-some g (some x) {r} h = elim (Bool-cases (is_usable g x)) [
  | inl u ↦
      let h' : ◌≡◌ {A = Option CacheRecord} (some x) (some r) = rw u at h in
      let same : x ≡ r = cc in (h', rw (← same) u)
  | inr u ↦ let h' : ◌≡◌ {A = Option CacheRecord} none (some r) = rw u at h in cc
]

-- After any operations on a new cache, a record that a get returns was stored for the scope, class
-- and key digest of the request, carries the digest of its value, was made under the versions that
-- the request names, is valid and has not expired; and the request took no current information.
pub get-Serves :
    (digest : String → String) (p : CachePolicy) (os : List Operation) (g : CacheGetRequest)
    (r : CacheRecord)
    → (get g (run digest p os new_service)).0 ≡ some r
    → Serves digest g r × (g.current_information_required ≡ false)
unfolding is_usable
get-Serves digest p os g r h =
    let s = run digest p os new_service in
    let h' = sym (get-answer_of g s) ∙ h in
    elim (Bool-cases g.current_information_required) [
      | inl c ↦ let bad : ◌≡◌ {A = Option CacheRecord} none (some r) = rw c at h' in cc
      | inr c ↦
          let answered : answer_of g (lookup same_key (get_key g) s.records) ≡ some r =
            rw c at h' in
          let (found, usable) = answer-some g (lookup same_key (get_key g) s.records) answered in
          let kept =
            Each-lookup same_key-Decides (IsKept digest) (get_key g) s.records
              (run-AllKept digest p os new_service tt) found in
          (usable-Serves digest g r kept usable, c)
    ]
