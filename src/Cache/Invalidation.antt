-- ===== src/Cache/Invalidation.antt =====
-- What `CacheService.invalidate` of src/ndt_agents/cache/service.py takes away.
use ndt_agents.Base.{
  ◌+◌, Bool, true, false, not, Option, none, some, str_eq, eq_iff, refl, sym, ap, ◌∙◌, List, [],
  ◌∷◌, String, ◌≡◌, inl, inr, Bool-cases, length,
}
use ndt_agents.Dict.{lookup, keep, Each, Each-lookup}
use ndt_agents.Cache.Models.{CachePolicy, CacheRecord}
use ndt_agents.Cache.Backend.{Records, same_key, targets, backend_invalidate}
use ndt_agents.Cache.Service.{new_service, invalidate, has_version, value_matches}
use ndt_agents.Cache.Lookups.{same_key-Decides}
use ndt_agents.Cache.Runs.{Operation, run}
use ndt_agents.Cache.Distinct.{run-Distinct, delete_each-targets, length-targets, lookup-keep}

module _ (p : CacheRecord → Bool) where
  Each-kept : (d : Records) → Each (λ k r. p r ≡ false) (keep (λ r. not (p r)) d)
  Each-kept [] = tt
  Each-kept ((k, r) ∷ d) = elim (Bool-cases (p r)) [
    | inl h ↦ rw h (Each-kept d)
    | inr h ↦ rw h (h, Each-kept d)
  ]

  lookup-kept :
      (k : List String) (r : CacheRecord) (d : Records)
      → lookup same_key k d ≡ some r
      → p r ≡ false
      → lookup same_key k (keep (λ x. not (p x)) d) ≡ some r
  lookup-kept k r [] found stays = cc
  lookup-kept k r ((l, x) ∷ d) found stays = elim (Bool-cases (same_key l k)) [
    | inl s ↦
        let found' : ◌≡◌ {A = Option CacheRecord} (some x) (some r) = rw s at found in
        let same : x ≡ r = cc in let out : p x ≡ false = rw same stays in rw (out, s) found'
    | inr s ↦
        let found' : lookup same_key k d ≡ some r = rw s at found in
        elim (Bool-cases (p x)) [
          | inl h ↦ rw h (lookup-kept k r d found' stays)
          | inr h ↦ rw (h, s) (lookup-kept k r d found' stays)
        ]
  ]

-- The record was made under some version of the name, and under the given one if one is given.
abbrev pub MadeUnder : String → Option String → CacheRecord → Type 0
MadeUnder name v r =
    (w : String) × (lookup str_eq name r.version_manifest ≡ some w)
    × ((u : String) → v ≡ some u → u ≡ w)

matches-value :
    (v found : Option String)
    → value_matches v found ≡ true
    → (w : String) × (found ≡ some w) × ((u : String) → v ≡ some u → u ≡ w)
matches-value none none h = cc
matches-value none (some w) h = (w, refl, λ u e. cc)
matches-value (some v) none h = cc
matches-value (some v) (some w) h =
    let same = (eq_iff w v).0 h in (w, refl, λ u e. let there : v ≡ u = cc in cc)

value-matches :
    (v found : Option String) (w : String)
    → found ≡ some w
    → ((u : String) → v ≡ some u → u ≡ w)
    → value_matches v found ≡ true
value-matches none none w e h = cc
value-matches none (some x) w e h = refl
value-matches (some v) none w e h = cc
value-matches (some v) (some x) w e h =
    let there : x ≡ w = cc in (eq_iff x v).1 (there ∙ sym (h v refl))

-- After any operations on a new service, `invalidate` takes away exactly the records whose manifest
-- has the version name, with the given value if one is given: what is found under a key afterwards was
-- found there before and is not such a record, a record that is not such a one stays under its key,
-- and the number that is returned is that of the entries that went.
pub invalidate_lem :
    (digest : String → String) (p : CachePolicy) (os : List Operation) (name : String)
    (v : Option String)
    → let s = run digest p os new_service in
      let end = invalidate name v s in
      ((k : List String) (r : CacheRecord)
        → lookup same_key k end.1.records ≡ some r
        → (lookup same_key k s.records ≡ some r) × (MadeUnder name v r → ⊥))
      × ((k : List String) (r : CacheRecord)
          → lookup same_key k s.records ≡ some r
          → (MadeUnder name v r → ⊥)
          → lookup same_key k end.1.records ≡ some r)
      × (end.0 + length end.1.records ≡ length s.records)
unfolding invalidate backend_invalidate has_version
invalidate_lem digest p os name v =
    let d = (run digest p os new_service).records in
    let distinct = run-Distinct digest p os new_service tt in
    let test = has_version name v in
    let kept = delete_each-targets test d distinct in
    (
      λ k r found.
          let found' = sym (ap (lookup same_key k) kept) ∙ found in
          let out : test r ≡ false =
            Each-lookup same_key-Decides (λ l x. test x ≡ false) k _ (Each-kept test d) found' in
          (
            lookup-keep test k r d distinct found',
            λ under.
                let bad : false ≡ true = sym out ∙ value-matches v _ under.0 under.1 under.2 in cc,
          ),
      λ k r found stays. elim (Bool-cases (test r)) [
        | inl e ↦ absurd (stays (matches-value v _ e))
        | inr out ↦ ap (lookup same_key k) kept ∙ lookup-kept test k r d found out
      ],
      ap (λ x. length (targets test d) + length x) kept ∙ length-targets test d,
    )
