-- ===== src/Lifecycle/Promises.antt =====
-- What `DataLifecycleService` of src/ndt_agents/lifecycle/service.py promises for the objects that it
-- governs.
use ndt_agents.Base.{true, false, some, List, [], String, str_eq, ◌≡◌, inl, inr}
use ndt_agents.Dict.{lookup}
use ndt_agents.Lifecycle.Data.{LifecyclePolicy, GovernedObject, Payload, Name, Lifecycle}
use ndt_agents.Lifecycle.Guards.{is_active, is_held}
use ndt_agents.Lifecycle.Runs.{
  LifecycleCall, has_release, is_held-insert, run, run-Keeps, run-AllGood, Watched-Keeps,
}

module _ (digest : Payload → String) (identify : Name → String) (policy : LifecyclePolicy) where
  -- After any calls on an empty repository, an object that is deleted or erased stays as it is,
  -- whatever calls follow.
  pub tombstones_are_final :
      (calls more : List LifecycleCall) (s : Lifecycle) (id : String) (g : GovernedObject)
      → s.objects ≡ []
      → lookup str_eq id (run digest identify policy calls s).objects ≡ some g
      → is_active g.state ≡ false
      → lookup str_eq id
          (run digest identify policy more (run digest identify policy calls s)).objects
        ≡ some g
  tombstones_are_final calls more s id g empty here dead =
      let keeps =
        Watched-Keeps digest identify policy id g (λ holds. Unit) (λ holds h. inl dead)
          (λ holds k h new b. b) in
      (run-Keeps digest identify policy keeps more (run digest identify policy calls s)
        (inr (λ objects holds holds' h. (h.0, h.1, tt)))
        (run-AllGood digest identify policy calls s empty, here, tt)).1

  -- After any calls on an empty repository, an object that some active hold is on stays as it is, and
  -- stays held, whatever calls follow, as long as none of them releases a hold.
  pub held_objects_are_kept :
      (calls more : List LifecycleCall) (s : Lifecycle) (id : String) (g : GovernedObject)
      → s.objects ≡ []
      → lookup str_eq id (run digest identify policy calls s).objects ≡ some g
      → is_held id (run digest identify policy calls s).holds ≡ true
      → has_release more ≡ false
      → let end = run digest identify policy more (run digest identify policy calls s) in
        (lookup str_eq id end.objects ≡ some g) × (is_held id end.holds ≡ true)
  held_objects_are_kept calls more s id g empty here held unreleased =
      let keeps =
        Watched-Keeps digest identify policy id g (λ holds. is_held id holds ≡ true)
          (λ holds h. inr h) (λ holds k h new b. is_held-insert id k h holds new b) in
      let end =
        run-Keeps digest identify policy keeps more (run digest identify policy calls s)
          (inl unreleased) (run-AllGood digest identify policy calls s empty, here, held) in
      (end.1, end.2)
