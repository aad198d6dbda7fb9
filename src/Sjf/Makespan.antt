-- ===== src/Sjf/Makespan.antt =====
-- SJF.c: the time at which `SJF` reaps the last process.
use mathlib.Core.Path.{subst}
use os_project.Prelude.{
  ℕ, ◌+◌, ◌≤◌, ◌<◌, ◌≢◌, ◌≡◌, refl, List, [], ◌∷◌, All, map, length, set, get_or, arith,
}
use os_project.Process.{Process, Name}
use os_project.Process.Jobs.{Job, no_job}
use os_project.Process.Work.{total_left, done_count}
use os_project.Process.Workload.{IsWorkload, job_of}
use os_project.Process.Sorting.{Qsort, IsQsort}
use os_project.Process.Makespan.{IsMakespan, last_time}
use os_project.Process.Makespan.Work.{IsMakespan-after}
use os_project.Process.Makespan.Wait.{IsMakespan-idle, IsMakespan-over}
use os_project.Process.Makespan.Order.{IsMakespan-qsort}
use os_project.Os.{Trace, Kernel, IsReliable, int_max}
use os_project.Os.Triple.{Exits, weaken_exit}
use os_project.Sjf.{cmp, sjf}
use os_project.Sjf.Steps.{seen}
use os_project.Sjf.Plan.{Plan, all_over, wait, run, finish}
use os_project.Sjf.Order.{sjf-FollowsPlan}

-- Jobs that are not done end.
nothing_ends : (now : ℕ) (js : List Job) → Plan now js [] → done_count js ≡ length js
nothing_ends now js (all_over over) = over
nothing_ends now js (wait undone idle p) = absurd (omega (arith, nothing_ends (now + 1) js p))

last_time-later :
    (now now' : ℕ) (js : List Job) (out : List (Name × ℕ))
    → Plan now' js out
    → done_count js < length js
    → last_time now out ≡ last_time now' out
last_time-later now now' js [] p undone = absurd (omega (arith, nothing_ends now' js p))
last_time-later now now' js (end ∷ out) p undone = refl

Plan-IsMakespan :
    (now : ℕ) (js : List Job) (out : List (Name × ℕ))
    → Plan now js out
    → IsMakespan now js (last_time now out)
Plan-IsMakespan now js out (all_over over) = IsMakespan-over now js over
Plan-IsMakespan now js out (wait undone idle p) =
    rw (last_time-later now (now + 1) js out p undone) (
      IsMakespan-idle now js undone idle (last_time (now + 1) out)
        (Plan-IsMakespan (now + 1) js out p))
Plan-IsMakespan now js (end ∷ out) (run i short p) =
    IsMakespan-after now js i j.left (last_time (now + j.left) out) short.inside
      (ground (arith, short.waits)) (omega arith)
      (subst
        (λ left.
          IsMakespan (now + j.left) (set js i (record j { left = left }))
            (last_time (now + j.left) out))
        (omega arith) (Plan-IsMakespan (now + j.left) (finish js i) out p))
  where
    j : Job
    j = get_or js i no_job

-- The time of the last end that is reported.
abbrev pub last_end : Trace → ℕ
last_end tr = last_time 0 (seen tr).1

module _ (kernel : Kernel) (stray : Process) where
  -- The last of the times at which a process was reaped is the makespan.
  abbrev pub EndsAtMakespan : List Process → Trace → Type 0
  EndsAtMakespan proc tr' = IsMakespan 0 (map job_of proc) (last_end tr')

  -- Under the conditions under which SJF follows a plan, it reaps the last process at the makespan
  -- of the table's jobs.
  pub sjf-EndsAtMakespan :
      (qsort : Qsort) (fuel : ℕ) (proc : List Process) (latest : ℕ)
      → IsReliable kernel
      → IsQsort qsort
      → IsWorkload proc
      → proc ≢ []
      → All (λ k. k.arrival ≤ latest) (map job_of (qsort cmp proc))
      → latest + total_left (map job_of (qsort cmp proc)) ≤ int_max
      → latest + total_left (map job_of (qsort cmp proc)) < fuel
      → Exits (sjf kernel stray qsort fuel proc) [] 0 (EndsAtMakespan proc)
  sjf-EndsAtMakespan qsort fuel proc latest reliable sorting work some_proc early fits enough =
      weaken_exit
        (sjf-FollowsPlan kernel stray qsort fuel proc latest reliable sorting work some_proc early
          fits enough)
        λ tr' (out, plan, reaped, in_time).
          IsMakespan-qsort sorting cmp proc (last_end tr')
            (rw reaped (Plan-IsMakespan 0 (map job_of (qsort cmp proc)) out plan))
