-- ===== src/Psjf/Order.antt =====
-- PSJF.c: a run of `PSJF`, and the timeline of its policy.
use os_project.Prelude.{
  ℕ, ◌+◌, ◌≤◌, ◌<◌, ◌≡◌, refl, sym, false, Option, none, some, List, [], ◌∷◌, All, map, ℤ, pos,
  minus_one, eq_ℤ, length, arith,
}
use os_project.Process.{Process}
use os_project.Process.Workload.{IsWorkload, IsJob, IsWorkload-All, job_of, jobs_left}
use os_project.Process.Jobs.{Job, Pointwise}
use os_project.Process.Work.{total_left, done_count-zero}
use os_project.Os.{Trace, Kernel, IsReliable, int_max, getpid, affinity_call, M, ◌>>=◌}
use os_project.Os.Loop.{forever, forever_rule, Ended}
use os_project.Os.Triple.{Returns, step_rule, weaken}
use os_project.Cpu.{proc_assign_cpu, parent_cpu}
use os_project.Cpu.Laws.{proc_assign_cpu_run}
use os_project.Psjf.{State, round, psjf}
use os_project.Psjf.Waiting.{Shows}
use os_project.Psjf.Steps.{seen}
use os_project.Psjf.Timeline.{Timeline, HasPid}
use os_project.Psjf.Invariant.{Inv, Done, measure, at_head}
use os_project.Psjf.Rounds.{round-Progress}

-- No entry is marked as waiting before the start. The memory comes from `malloc`, and `main` does not
-- write this field.
abbrev pub NoneMarked : List Process → Type 0
NoneMarked = All (λ p. eq_ℤ p.waiting (pos 1) ≡ false)

fresh-Shows : (ps : List Process) → All IsJob ps → NoneMarked ps → Shows 0 ps (map job_of ps)
fresh-Shows [] jobs unmarked = tt
fresh-Shows (p ∷ ps) jobs unmarked =
    (ground (arith, jobs.0, unmarked.0), fresh-Shows ps jobs.1 unmarked.1)

abbrev fresh_state : List Process → State
fresh_state ps = record {
  proc = ps;
  time = 0;
  pre_running = minus_one;
  running = minus_one;
  finished_process = 0;
}

module _ (kernel : Kernel) (stray : Process) where
  -- What PSJF promises of its return. All processes are counted as finished by `limit`, the units of
  -- time were given to the jobs as a timeline says, and at each of them the last process whose
  -- priority was changed, but for new ones, was that of the job whose turn it was.
  abbrev pub FollowsTimeline : List Job → ℕ → Option State → Trace → Type 0
  FollowsTimeline js limit r tr' =
      (s : State) × (ran : List (Option ℕ)) × (r ≡ some s)
      × (s.finished_process ≡ length s.proc)
      × (s.time ≤ limit)
      × (Timeline 0 js ran)
      × (length (seen tr').1 ≡ s.time)
      × Pointwise (HasPid stray s.proc) ran (seen tr').1

  Ended-FollowsTimeline :
      (js : List Job) (latest limit : ℕ) (r : Option State) (tr : Trace)
      → Ended
          (Inv js latest limit stray)
          (Done js latest limit stray)
          (measure js latest limit stray)
          r
          tr
      → FollowsTimeline js limit r tr
  Ended-FollowsTimeline js latest limit none tr d = absurd d
  Ended-FollowsTimeline js latest limit (some s) tr d =
      (s, d.ran, refl, d.all_done, d.in_time, d.plan, d.units, d.history)

  -- For a kernel whose fork and sched_setaffinity do not fail, on a workload none of whose entries
  -- is marked as waiting, and with an int and fuel beyond the last arrival and all the work
  -- together, PSJF returns with all processes counted as finished by then, each unit of time went
  -- to the first of the shortest jobs that had arrived, and the process whose priority was the last
  -- to be changed, but for new ones, was that job's.
  pub psjf-FollowsTimeline :
      (fuel : ℕ) (proc : List Process) (latest : ℕ)
      → IsReliable kernel
      → IsWorkload proc
      → NoneMarked proc
      → All (λ j. j.arrival ≤ latest) (map job_of proc)
      → latest + total_left (map job_of proc) < int_max
      → latest + total_left (map job_of proc) < fuel
      → Returns
          (psjf kernel stray fuel proc)
          []
          (FollowsTimeline (map job_of proc) (latest + total_left (map job_of proc)))
  unfolding psjf
  psjf-FollowsTimeline fuel proc latest reliable work unmarked early fits enough =
      step_rule (getpid kernel) (λ me. proc_assign_cpu kernel me parent_cpu >>= λ _. run) refl
        (step_rule (proc_assign_cpu kernel me parent_cpu) (λ _. run)
          (proc_assign_cpu_run kernel me parent_cpu [] reliable (omega arith))
          (weaken
            (forever_rule (Inv js latest limit stray) (Done js latest limit stray)
              (measure js latest limit stray) (round kernel stray)
              (round-Progress js latest limit stray kernel reliable fits) fuel (fresh_state proc)
              (affinity_call me parent_cpu ∷ []) (omega arith)
              (at_head js [] [] (record {
                shown = fresh-Shows proc jobs unmarked;
                budget = record { arrivals = early; room = omega arith };
                counted = sym (done_count-zero js (jobs_left proc jobs));
                calm = (refl, refl);
                units = refl;
                history = tt;
                plan = λ out t. t;
              })))
            (Ended-FollowsTimeline js latest limit)))
    where
      js : List Job
      js = map job_of proc

      limit : ℕ
      limit = latest + total_left js

      me : ℤ
      me = kernel.own_pid []

      jobs : All IsJob proc
      jobs = IsWorkload-All proc work

      run : M (Option State)
      run = forever fuel (round kernel stray) (fresh_state proc)
