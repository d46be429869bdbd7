-- ===== src/Cache/Counted.antt =====
-- What the counters of `CacheService` in src/ndt_agents/cache/service.py say of a run.
use ndt_agents.Base.{
  ℕ, suc, ◌+◌, ◌≤◌, Option, none, some, List, [], ◌∷◌, String, ◌≡◌, refl, Bool-cases, inl, inr,
  arith,
}
use ndt_agents.Result.{Result, ok, err}
use ndt_agents.Cache.Models.{CachePolicy, CacheGetRequest, CacheRecord, CacheMetrics}
use ndt_agents.Cache.Backend.{CacheError, Records, backend_get}
use ndt_agents.Cache.Service.{
  CacheService, new_service, put_records, put, after_put, get, get_found, is_usable, invalidate,
  metrics,
}
use ndt_agents.Cache.Runs.{Operation, putting, getting, invalidating, step, run}

abbrev pub gets_in : List Operation → ℕ
gets_in [] = 0
gets_in (getting g ∷ os) = suc (gets_in os)
gets_in (putting r ∷ os) = gets_in os
gets_in (invalidating name v ∷ os) = gets_in os

-- The counters after `n` gets.
abbrev pub Counts : ℕ → CacheMetrics → Type 0
Counts n m = (m.hits + m.misses ≡ n) × (m.stale_rejections + m.bypasses ≤ m.misses)

module _ (digest : String → String) (p : CachePolicy) where
  after_put-Counts :
      (n : ℕ) (s : CacheService) (out : Result CacheError (CacheRecord × Records))
      → Counts n (metrics s)
      → Counts n (metrics (after_put s out).1)
  unfolding metrics
  after_put-Counts n s (ok (r, records)) c = c
  after_put-Counts n s (err e) c = c

  get_found-Counts :
      (g : CacheGetRequest) (found : Option CacheRecord) (n : ℕ) (s : CacheService)
      → Counts n (metrics s)
      → Counts (suc n) (metrics (get_found g found s).1)
  unfolding metrics get_found
  get_found-Counts g none n s c = omega arith
  get_found-Counts g (some r) n s c = elim (Bool-cases (is_usable g r)) [
    | inl u ↦ rw u (omega arith)
    | inr u ↦ rw u (omega arith)
  ]

  get-Counts :
      (g : CacheGetRequest) (n : ℕ) (s : CacheService)
      → Counts n (metrics s)
      → Counts (suc n) (metrics (get g s).1)
  unfolding metrics get get_found is_usable
  get-Counts g n s c = elim (Bool-cases g.current_information_required) [
    | inl r ↦ rw r (omega arith)
    | inr r ↦
        rw r (
          get_found-Counts g (backend_get g.scope g.cache_class g.cache_key_sha256 s.records) n s c)
  ]

  run-Counts :
      (os : List Operation) (n : ℕ) (s : CacheService)
      → Counts n (metrics s)
      → Counts (gets_in os + n) (metrics (run digest p os s))
  unfolding run step put invalidate metrics
  run-Counts [] n s c = (omega arith, c.1)
  run-Counts (getting g ∷ os) n s c =
      let (sum, most) = run-Counts os (suc n) (get g s).1 (get-Counts g n s c) in
      (omega arith, most)
  run-Counts (putting r ∷ os) n s c =
      run-Counts os n (put digest p r s).1
        (after_put-Counts n s (put_records digest p r s.records) c)
  run-Counts (invalidating name v ∷ os) n s c = run-Counts os n (invalidate name v s).1 c

  -- After any operations on a new cache, the hits and the misses are together the gets among them,
  -- and the stale rejections and the bypasses are together at most the misses.
  pub metrics_count_gets :
      (os : List Operation) → Counts (gets_in os) (metrics (run digest p os new_service))
  unfolding metrics
  metrics_count_gets os =
      let (sum, most) = run-Counts os 0 new_service (refl, omega arith) in (omega arith, most)
