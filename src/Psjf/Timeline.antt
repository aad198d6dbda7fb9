-- ===== src/Psjf/Timeline.antt =====
-- The specification of PSJF: which job runs at each unit of time under the preemptive
-- shortest-job-first policy, and how that shows in the pids.
use os_project.Prelude.{
  ℕ, ◌+◌, ◌<◌, ◌≡◌, ◌∙◌, refl, Option, none, some, List, [], ◌∷◌, ℤ, get_or, set, length,
  length-set, get_or-set_same, arith,
}
use os_project.Process.{Process}
use os_project.Process.Jobs.{Job, no_job, Pointwise, Pointwise-get, Pointwise-length}
use os_project.Process.Work.{done_count, spend}
use os_project.Process.Waiting.{NoneWaits, Shortest}
use os_project.Psjf.Waiting.{Entry, Shows}
use os_project.Psjf.Steps.{Kept}

-- `Timeline now js out`: from `now` on, the jobs `js` get the units of time as `out` says, until
-- all are done.
pub data Timeline : ℕ → List Job → List (Option ℕ) → Type 0 where
  all_over : {now : ℕ} {js : List Job} → done_count js ≡ length js → Timeline now js []
  wait :
      {now : ℕ} {js : List Job} {out : List (Option ℕ)}
      → done_count js < length js
      → NoneWaits now js
      → Timeline (now + 1) js out
      → Timeline now js (none ∷ out)
  run :
      {now : ℕ} {js : List Job} {out : List (Option ℕ)} (i : ℕ)
      → Shortest now js i
      → Timeline (now + 1) (set js i (spend (get_or js i no_job))) out
      → Timeline now js (some i ∷ out)

module _ (stray : Process) where
  -- The pid of the process that had the unit of time.
  abbrev pub HasPid : List Process → Option ℕ → ℤ → Type 0
  HasPid proc none pid = Unit
  HasPid proc (some i) pid = (get_or proc i stray).pid ≡ pid

  -- It belongs to a job that has arrived before `now`.
  abbrev pub Ran : ℕ → List Process → List Job → Option ℕ → ℤ → Type 0
  Ran now proc js none pid = Unit
  Ran now proc js (some i) pid =
      (i < length js) × ((get_or js i no_job).arrival < now) × ((get_or proc i stray).pid ≡ pid)

  pub Ran-HasPid :
      (now : ℕ) (proc : List Process) (js : List Job) (slot : Option ℕ) (pid : ℤ)
      → Ran now proc js slot pid
      → HasPid proc slot pid
  Ran-HasPid now proc js none pid r = tt
  Ran-HasPid now proc js (some i) pid (inside, early, same) = same

  -- Arrivals keep the pids of those that have arrived before.
  pub Ran-arrivals :
      (now : ℕ) (ps ps' : List Process) (js : List Job)
      → Shows now ps js
      → Pointwise (Kept now) ps ps'
      → (slot : Option ℕ) (pid : ℤ) → Ran now ps js slot pid
      → Ran (now + 1) ps' js slot pid
  Ran-arrivals now ps ps' js shown kept none pid r = tt
  Ran-arrivals now ps ps' js shown kept (some i) pid (inside, early, same) = (
    inside,
    omega arith,
    kept_here (λ now_ready. ground (arith, here.ready_shown, now_ready)) ∙ same,
  )
    where
      here : Entry now (get_or ps i stray) (get_or js i no_job)
      here = Pointwise-get (Entry now) ps js i stray no_job shown inside

      kept_here : Kept now (get_or ps i stray) (get_or ps' i stray)
      kept_here = Pointwise-get (Kept now) ps ps' i stray stray kept (
          omega (
            arith,
            inside,
            Pointwise-length (Kept now) ps ps' kept,
            Pointwise-length (Entry now) ps js shown,
          ))

  -- A unit of time changes neither pids nor times of arrival.
  pub Ran-spend :
      (now : ℕ) (ps : List Process) (js : List Job) (k : ℕ) (q : Process)
      → q.pid ≡ (get_or ps k stray).pid
      → (slot : Option ℕ) (pid : ℤ) → Ran now ps js slot pid
      → Ran now (set ps k q) (set js k (spend (get_or js k no_job))) slot pid
  Ran-spend now ps js k q same_pid none pid r = tt
  Ran-spend now ps js k q same_pid (some i) pid (inside, early, same) = (
    omega (arith, inside, length-set js k (spend (get_or js k no_job))),
    omega (arith, early, same_arrival),
    get_or-set_same (λ (p : Process). p.pid) ps k i q stray same_pid ∙ same,
  )
    where
      same_arrival :
          (get_or (set js k (spend (get_or js k no_job))) i no_job).arrival
          ≡ (get_or js i no_job).arrival
      same_arrival =
          get_or-set_same (λ (j : Job). j.arrival) js k i (spend (get_or js k no_job)) no_job refl
