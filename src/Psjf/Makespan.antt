-- ===== src/Psjf/Makespan.antt =====
-- PSJF.c: the time on the clock when `PSJF` returns.
use os_project.Prelude.{
  ℕ, suc, ◌+◌, ◌≤◌, ◌<◌, ◌≡◌, Option, some, List, [], ◌∷◌, All, map, length, arith,
}
use os_project.Process.{Process}
use os_project.Process.Jobs.{Job, Pointwise-length}
use os_project.Process.Work.{total_left}
use os_project.Process.Workload.{IsWorkload, job_of}
use os_project.Process.Makespan.{IsMakespan}
use os_project.Process.Makespan.Work.{IsMakespan-after}
use os_project.Process.Makespan.Wait.{IsMakespan-idle, IsMakespan-over}
use os_project.Os.{Trace, Kernel, IsReliable, int_max}
use os_project.Os.Triple.{Returns, weaken}
use os_project.Psjf.{State, psjf}
use os_project.Psjf.Steps.{seen}
use os_project.Psjf.Timeline.{Timeline, all_over, wait, run, HasPid}
use os_project.Psjf.Order.{NoneMarked, psjf-FollowsTimeline}

Timeline-IsMakespan :
    (now : ℕ) (js : List Job) (out : List (Option ℕ))
    → Timeline now js out
    → IsMakespan now js (now + length out)
Timeline-IsMakespan now js [] (all_over over) =
    let e : now + 0 ≡ now = omega arith in rw e (IsMakespan-over now js over)
Timeline-IsMakespan now js (slot ∷ out) (wait undone idle t) =
    let e : now + suc (length out) ≡ now + 1 + length out = omega arith in
    rw e (
      IsMakespan-idle now js undone idle (now + 1 + length out)
        (Timeline-IsMakespan (now + 1) js out t))
Timeline-IsMakespan now js (slot ∷ out) (run i short t) =
    let e : now + suc (length out) ≡ now + 1 + length out = omega arith in
    rw e (
      IsMakespan-after now js i 1 (now + 1 + length out) short.inside (ground (arith, short.waits))
        (ground (arith, short.waits)) (Timeline-IsMakespan (now + 1) _ out t))

module _ (kernel : Kernel) (stray : Process) where
  -- The clock shows the makespan at the end.
  abbrev pub EndsAtMakespan : List Process → Option State → Trace → Type 0
  EndsAtMakespan proc r tr' = (s : State) × (r ≡ some s) × IsMakespan 0 (map job_of proc) s.time

  -- Under the conditions under which PSJF follows a timeline, its clock shows at its return the
  -- makespan of the jobs: the least time that has room for all the work, and behind each job's
  -- arrival for the work that arrives no earlier.
  pub psjf-EndsAtMakespan :
      (fuel : ℕ) (proc : List Process) (latest : ℕ)
      → IsReliable kernel
      → IsWorkload proc
      → NoneMarked proc
      → All (λ j. j.arrival ≤ latest) (map job_of proc)
      → latest + total_left (map job_of proc) < int_max
      → latest + total_left (map job_of proc) < fuel
      → Returns (psjf kernel stray fuel proc) [] (EndsAtMakespan proc)
  psjf-EndsAtMakespan fuel proc latest reliable work unmarked early fits enough =
      weaken
        (psjf-FollowsTimeline kernel stray fuel proc latest reliable work unmarked early fits
          enough)
        λ r tr' (s, ran, ended, counted, in_time, plan, units, history).
          let e : s.time ≡ 0 + length ran =
            omega (arith, units, Pointwise-length (HasPid stray s.proc) ran (seen tr').1 history) in
          (s, ended, rw e (Timeline-IsMakespan 0 (map job_of proc) ran plan))
