-- ===== src/Scheduler/Prerequisites.antt =====
-- Which contexts of a wave `TaskScheduler._execute` of src/ndt_agents/orchestration/scheduler.py runs.
use ndt_agents.Base.{
  has, ℕ, true, false, Option, none, some, List, [], ◌∷◌, String, str_eq, eq_iff, ◌≡◌, refl, sym,
  ◌∙◌, inl, inr, Bool-cases, ap,
}
use mathlib.Core.Path.{subst}
use ndt_agents.Dict.{lookup, insert, lookup-insert, lookup-insert-other}
use ndt_agents.Scheduler.Data.{ChildTaskContext, ScheduledAssignment, is_completed}
use ndt_agents.Scheduler.Execution.{
  is_done, failed_dependencies, blocked_by, verdict, settled, still, prepare_wave,
}
use ndt_agents.Scheduler.Outcome.{Assignments}
use ndt_agents.Scheduler.Terminal.{text-Decides}

-- The dependencies have completed assignments.
abbrev pub AllDone : List String → Assignments → Type 0
AllDone [] done = Unit
AllDone (d ∷ ds) done = (is_done (lookup str_eq d done) ≡ true) × AllDone ds done

-- Each context was not cancelled, and its dependencies are completed.
abbrev pub AllRunnable : List String → Assignments → List ChildTaskContext → Type 0
AllRunnable cancelled_ids done [] = Unit
AllRunnable cancelled_ids done (c ∷ cs) =
    (has c.assignment_id cancelled_ids ≡ false)
    × AllDone c.dependency_assignment_ids done
    × AllRunnable cancelled_ids done cs

none_failed :
    (ds : List String) (done : Assignments) → failed_dependencies ds done ≡ [] → AllDone ds done
unfolding failed_dependencies
none_failed [] done h = tt
none_failed (d ∷ ds) done h = elim (Bool-cases (is_done (lookup str_eq d done))) [
  | inl b ↦ let h' : failed_dependencies ds done ≡ [] = rw b at h in (b, none_failed ds done h')
  | inr b ↦ let h' : ◌≡◌ {A = List String} (d ∷ failed_dependencies ds done) [] = rw b at h in cc
]

-- A verdict lets the context run, or is an assignment that is not completed.
abbrev Judges : List String → ChildTaskContext → Assignments → Option ScheduledAssignment → Type 0
Judges cancelled_ids c done none =
    (has c.assignment_id cancelled_ids ≡ false) × AllDone c.dependency_assignment_ids done
Judges cancelled_ids c done (some a) = is_completed a.status ≡ false

blocked_by-Judges :
    (cancelled_ids : List String) (wave : ℕ) (c : ChildTaskContext) (done : Assignments)
    (out : List String)
    → failed_dependencies c.dependency_assignment_ids done ≡ out
    → has c.assignment_id cancelled_ids ≡ false
    → Judges cancelled_ids c done (blocked_by c wave out)
blocked_by-Judges cancelled_ids wave c done [] e h =
    (h, none_failed c.dependency_assignment_ids done e)
blocked_by-Judges cancelled_ids wave c done (d ∷ ds) e h = refl

verdict-Judges :
    (cancelled_ids : List String) (wave : ℕ) (c : ChildTaskContext) (done : Assignments)
    → Judges cancelled_ids c done (verdict cancelled_ids wave c done)
unfolding verdict
verdict-Judges cancelled_ids wave c done = elim (Bool-cases (has c.assignment_id cancelled_ids)) [
  | inl h ↦ rw h refl
  | inr h ↦
      subst (Judges cancelled_ids c done) (sym (skips h))
        (blocked_by-Judges cancelled_ids wave c done _ refl h)
]
  where
    skips :
        has c.assignment_id cancelled_ids ≡ false
        → verdict cancelled_ids wave c done
          ≡ blocked_by c wave (failed_dependencies c.dependency_assignment_ids done)
    skips h = rw h refl

settled_done :
    (cancelled_ids : List String) (c : ChildTaskContext) (v : Option ScheduledAssignment)
    (done : Assignments) (d : String)
    → Judges cancelled_ids c done v
    → is_done (lookup str_eq d (settled c v done)) ≡ true
    → is_done (lookup str_eq d done) ≡ true
settled_done cancelled_ids c none done d j h = h
settled_done cancelled_ids c (some a) done d j h = elim (Bool-cases (str_eq c.assignment_id d)) [
  | inl e ↦
      let found : lookup str_eq d (insert str_eq c.assignment_id a done) ≡ some a =
        rw (← (eq_iff c.assignment_id d).0 e) (lookup-insert text-Decides c.assignment_id a done) in
      let h' = ap is_done (sym found) ∙ h in cc
  | inr n ↦ ap is_done (sym (lookup-insert-other text-Decides c.assignment_id d a done n)) ∙ h
]

AllDone-before :
    (cancelled_ids : List String) (c : ChildTaskContext) (v : Option ScheduledAssignment)
    (done : Assignments) (ds : List String)
    → Judges cancelled_ids c done v
    → AllDone ds (settled c v done)
    → AllDone ds done
AllDone-before cancelled_ids c v done [] j h = tt
AllDone-before cancelled_ids c v done (d ∷ ds) j h =
    (settled_done cancelled_ids c v done d j h.0, AllDone-before cancelled_ids c v done ds j h.1)

AllRunnable-before :
    (cancelled_ids : List String) (c : ChildTaskContext) (v : Option ScheduledAssignment)
    (done : Assignments) (cs : List ChildTaskContext)
    → Judges cancelled_ids c done v
    → AllRunnable cancelled_ids (settled c v done) cs
    → AllRunnable cancelled_ids done cs
AllRunnable-before cancelled_ids c v done [] j h = tt
AllRunnable-before cancelled_ids c v done (x ∷ xs) j (free, deps, rest) = (
  free,
  AllDone-before cancelled_ids c v done x.dependency_assignment_ids j deps,
  AllRunnable-before cancelled_ids c v done xs j rest,
)

still-AllRunnable :
    (cancelled_ids : List String) (c : ChildTaskContext) (v : Option ScheduledAssignment)
    (done : Assignments) (cs : List ChildTaskContext)
    → Judges cancelled_ids c done v
    → AllRunnable cancelled_ids done cs
    → AllRunnable cancelled_ids done (still c v cs)
still-AllRunnable cancelled_ids c none done cs (free, deps) rest = (free, deps, rest)
still-AllRunnable cancelled_ids c (some a) done cs j rest = rest

-- Of a wave, only contexts run that are not cancelled and whose dependencies were all completed
-- before the wave.
pub prepare_wave-AllRunnable :
    (cancelled_ids : List String) (wave : ℕ) (cs : List ChildTaskContext) (done : Assignments)
    → AllRunnable cancelled_ids done (prepare_wave cancelled_ids wave cs done).1
unfolding prepare_wave
prepare_wave-AllRunnable cancelled_ids wave [] done = tt
prepare_wave-AllRunnable cancelled_ids wave (c ∷ cs) done =
    let v = verdict cancelled_ids wave c done in
    let judged = verdict-Judges cancelled_ids wave c done in
    still-AllRunnable cancelled_ids c v done _ judged (
      AllRunnable-before cancelled_ids c v done _ judged
        (prepare_wave-AllRunnable cancelled_ids wave cs (settled c v done)))
