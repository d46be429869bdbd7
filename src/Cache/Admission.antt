-- ===== src/Cache/Admission.antt =====
-- Which requests `CacheService.put` of src/ndt_agents/cache/service.py lets in.
use ndt_agents.Base.{
  ℕ, ◌≤◌, Bool, true, false, not, ◌&&◌, Option, none, some, String, ◌≡◌, refl, ap, ◌≢◌, ◌⊎◌, inl,
  inr, arith,
}
use ndt_agents.Result.{Result, ok, err, unless-eq-ok}
use ndt_agents.Budget.Policy.{TaskClass, g0, p1}
use ndt_agents.Cache.Models.{
  tool, semantic, CacheSideEffect, side_pure, side_write, CachePolicy, CachePutRequest, CacheRecord,
}
use ndt_agents.Cache.Backend.{CacheError, Records}
use ndt_agents.Cache.Service.{
  CacheService, validate_put, put_records, put, after_put, is_class_tool, is_class_semantic,
  is_write, is_pure, is_light_task, below_threshold,
}
use ndt_agents.Cache.Lookups.{put_records-ok}

-- What may be cached: no secret, no authorization decision, stable, no write, a tool's result only
-- if it is pure, and a semantic match only for a light task at or above the threshold.
pub record IsAdmissible (p : CachePolicy) (r : CachePutRequest) : Type 0 where
  pub no_secret : r.contains_secret ≡ false
  pub no_decision : r.contains_authorization_decision ≡ false
  pub is_stable : r.stable ≡ true
  pub no_write : r.side_effect ≢ side_write
  pub pure_tool : r.cache_class ≡ tool → r.side_effect ≡ side_pure
  pub light_task : r.cache_class ≡ semantic → (r.task_class ≡ g0) ⊎ (r.task_class ≡ p1)
  pub similar :
      r.cache_class ≡ semantic
      → (s : ℕ) × (r.semantic_similarity ≡ some s) × (p.semantic_minimum_similarity ≤ s)

not_write : (e : CacheSideEffect) → is_write e ≡ false → e ≢ side_write
not_write e h w = let h' : true ≡ false = rw w at h in cc

is_pure-pure : (e : CacheSideEffect) → is_pure e ≡ true → e ≡ side_pure
is_pure-pure side_pure h = refl
is_pure-pure CacheSideEffect.side_read h = cc
is_pure-pure side_write h = cc

is_light-light : (t : TaskClass) → is_light_task t ≡ true → (t ≡ g0) ⊎ (t ≡ p1)
is_light-light g0 h = inl refl
is_light-light p1 h = inr refl
is_light-light TaskClass.p2 h = cc
is_light-light TaskClass.p3 h = cc
is_light-light TaskClass.k1 h = cc

at_threshold :
    (minimum : ℕ) (o : Option ℕ)
    → below_threshold minimum o ≡ false
    → (s : ℕ) × (o ≡ some s) × (minimum ≤ s)
at_threshold minimum none h = cc
at_threshold minimum (some s) h = (s, refl, ground arith)

guarded_by : (a b : Bool) → a && not b ≡ false → a ≡ true → b ≡ true
guarded_by true true h e = refl
guarded_by true false h e = cc
guarded_by false b h e = cc

not_both : (a b : Bool) → a && b ≡ false → a ≡ true → b ≡ false
not_both true b h e = h
not_both false b h e = cc

not-false : (b : Bool) → not b ≡ false → b ≡ true
not-false true h = refl
not-false false h = cc

validate_put-IsAdmissible :
    (p : CachePolicy) (r : CachePutRequest) → validate_put p r ≡ ok tt → IsAdmissible p r
unfolding validate_put
validate_put-IsAdmissible p r h =
    let (secret, h1) = unless-eq-ok _ _ _ h in
    let (decision, h2) = unless-eq-ok _ _ _ h1 in
    let (stable, h3) = unless-eq-ok _ _ _ h2 in
    let (write, h4) = unless-eq-ok _ _ _ h3 in
    let (impure, h5) = unless-eq-ok _ _ _ h4 in
    let (heavy, h6) = unless-eq-ok _ _ _ h5 in
    let (unlike, h7) = unless-eq-ok _ _ _ h6 in
    record {
      no_secret = secret;
      no_decision = decision;
      is_stable = not-false r.stable stable;
      no_write = not_write r.side_effect write;
      pure_tool = λ e. is_pure-pure r.side_effect (guarded_by _ _ impure (ap is_class_tool e));
      light_task = λ e. is_light-light r.task_class (guarded_by _ _ heavy (ap is_class_semantic e));
      similar =
          λ e. at_threshold _ r.semantic_similarity (not_both _ _ unlike (ap is_class_semantic e));
    }

after_put-IsAdmissible :
    (digest : String → String) (p : CachePolicy) (r : CachePutRequest) (s : CacheService)
    {made : CacheRecord} {s' : CacheService} (out : Result CacheError (CacheRecord × Records))
    → put_records digest p r s.records ≡ out
    → after_put s out ≡ (ok made, s')
    → IsAdmissible p r
after_put-IsAdmissible digest p r s (ok (made, after)) e h =
    validate_put-IsAdmissible p r (put_records-ok digest p r s.records e).0
after_put-IsAdmissible digest p r s (err x) e h = cc

-- A put that returns was given an admissible request.
pub put-IsAdmissible :
    (digest : String → String) (p : CachePolicy) (r : CachePutRequest) (s : CacheService)
    (made : CacheRecord) (s' : CacheService)
    → put digest p r s ≡ (ok made, s')
    → IsAdmissible p r
unfolding put
put-IsAdmissible digest p r s made s' h =
    after_put-IsAdmissible digest p r s (put_records digest p r s.records) refl h
