-- ===== src/Rr/Order.antt =====
-- RR.c: a run of `RR_main`, the turns of its policy, and the average that it prints.
use os_project.Prelude.{
  if◌then◌else◌, ℕ, ◌+◌, ◌*◌, ◌≤◌, ◌<◌, ◌≢◌, ◌≡◌, refl, sym, ap, length-pos, ltb_ℤ, Option, none,
  some, List, [], ◌∷◌, All, map, ℤ, pos, length, arith,
}
use os_project.Process.{Process, unstarted}
use os_project.Process.Sorting.{Qsort, IsQsort}
use os_project.Process.Workload.{
  IsWorkload, IsJob, job_of, qsort-All, qsort-jobs_ne, unstarted-Shows, jobs_left,
}
use os_project.Process.Jobs.{Job, Shows}
use os_project.Process.Work.{total_left, done_count-zero}
use os_project.Os.{
  Trace, Kernel, IsReliable, AllowsPolicies, int_max, M, ◌>>=◌, ◌>>◌, pure, exit, say, print,
  average, priority_error, getpid, sched_other, sched_setscheduler, affinity_call, scheduler_call,
}
use os_project.Os.Loop.{forever_rule, Ended}
use os_project.Os.Triple.{Returns, bind_rule, step_rule, run_rule}
use os_project.Cpu.{proc_assign_cpu, parent_cpu}
use os_project.Cpu.Laws.{proc_assign_cpu_run}
use os_project.Rr.Control.{rr_compare}
use os_project.Rr.Control.Laws.{seen, Quiet}
use os_project.Rr.{State, round, prepare, loop, report, rr_main}
use os_project.Rr.Turns.{Turns}
use os_project.Rr.History.{reports, turnaround}
use os_project.Rr.Invariant.{Inv, Done, measure, vacant_at}
use os_project.Rr.Rounds.{round-Progress}

abbrev fresh_state : List Process → State
fresh_state ps = record {
  proc = ps;
  running = none;
  time_now = 0;
  time_last = 0;
  finish_cnt = 0;
  wait = pos 0;
}

module _ (kernel : Kernel) (stray : Process) where
  prepare-Quiet :
      (tr : Trace)
      → IsReliable kernel
      → AllowsPolicies kernel
      → Returns (prepare kernel stray) tr (Quiet tr)
  unfolding prepare
  prepare-Quiet tr reliable allows =
      step_rule (getpid kernel) (λ me. proc_assign_cpu kernel me parent_cpu >>= λ _. raise_self me)
        refl
        (step_rule (proc_assign_cpu kernel me parent_cpu) (λ _. raise_self me)
          (proc_assign_cpu_run kernel me parent_cpu tr reliable (omega arith))
          (run_rule (raise_self me)
            (ap (λ b. (if b then (say priority_error >> exit 1) else pure tt) set)
              (allows.scheduler_ok me sched_other 0 assigned))
            refl))
    where
      me : ℤ
      me = kernel.own_pid tr

      assigned : Trace
      assigned = affinity_call me parent_cpu ∷ tr

      set : Trace
      set = scheduler_call me sched_other 0 ∷ assigned

      raise_self : ℤ → M Unit
      raise_self pid = sched_setscheduler kernel pid sched_other 0 >>= λ answer.
          if ltb_ℤ answer (pos 0) then (say priority_error >> exit 1) else pure tt

  -- What RR promises of its end: it was reached by `break`, every process was reaped, by the time of
  -- the last arrival and all the work together, the lines `Finish` are those of a run of turns, and
  -- the line with the average, the last one, is about the sum of the turnaround times.
  abbrev pub FollowsTurns : List Job → ℕ → Option State → Trace → Type 0
  FollowsTurns js limit r tr' =
      (s : State) × (out : List (ℕ × ℕ)) × (tr : Trace) × (r ≡ some s)
      × (s.finish_cnt ≡ length s.proc)
      × (s.time_now ≤ limit)
      × (Turns 0 js none 0 out)
      × (seen tr' ≡ (s.time_now, reports js out))
      × (tr' ≡ print (average (pos (turnaround js out)) (length s.proc)) ∷ tr)

  report_rule :
      (js : List Job) (latest limit : ℕ) (r : Option State) (tr : Trace)
      → Ended (Inv js latest limit) (Done js latest limit) (measure js latest limit) r tr
      → Returns (report kernel stray r) tr (FollowsTurns js limit)
  unfolding report
  report_rule js latest limit none tr d = absurd d
  report_rule js latest limit (some s) tr d = run_rule (report kernel stray (some s)) refl (
    s,
    d.out,
    tr,
    refl,
    d.all_done,
    d.in_time,
    d.turns,
    d.reported,
    ap (λ w. print (average w (length s.proc)) ∷ tr) d.waited,
  )

  loop_ends :
      (fuel : ℕ) (ps : List Process) (js : List Job) (tr : Trace) (latest : ℕ)
      → IsReliable kernel
      → js ≢ []
      → Shows 0 ps js
      → All (λ k. 0 < k.left) js
      → All (λ k. k.arrival ≤ latest) js
      → latest + total_left js ≤ int_max
      → length js * (latest + total_left js) ≤ int_max
      → latest + total_left js < fuel
      → seen tr ≡ (0, [])
      → Returns (loop kernel stray fuel ps) tr (
          Ended
            (Inv js latest (latest + total_left js))
            (Done js latest (latest + total_left js))
            (measure js latest (latest + total_left js)))
  unfolding loop
  loop_ends fuel ps js tr latest reliable some_job shown left early fits sum_fits enough unseen =
      forever_rule (Inv js latest limit) (Done js latest limit) (measure js latest limit)
        (round kernel stray) (round-Progress js latest limit kernel stray reliable fits sum_fits)
        fuel (fresh_state ps) tr (omega arith)
        (vacant_at js [] (record {
          facts = record {
            shown = shown;
            budget = record { arrivals = early; room = omega arith };
            keeps = record { names = λ k. refl; arrivals = λ k. refl; lengths = refl };
            reported = unseen;
            waited = refl;
            bounded = omega arith;
            plan = λ out p. p;
          };
          vacant = refl;
          counted = sym (done_count-zero js left);
          undone = rw (done_count-zero js left) (length-pos js some_job);
        }))
    where
      limit : ℕ
      limit = latest + total_left js

  -- For a kernel whose fork and sched_setaffinity do not fail and that allows every change of
  -- policy, and every qsort, on a workload that is not empty, where the last arrival and all the
  -- work together fit an int, that many times the number of processes too, and are below the fuel,
  -- RR leaves its loop by break, the finish lines are those of turns of 500 units in the ring, and
  -- the last line is the average of their turnaround times.
  pub rr_main-FollowsTurns :
      (qsort : Qsort) (fuel : ℕ) (proc : List Process) (latest : ℕ)
      → IsReliable kernel
      → AllowsPolicies kernel
      → IsQsort qsort
      → IsWorkload proc
      → proc ≢ []
      → All (λ k. k.arrival ≤ latest) (map job_of (qsort rr_compare proc))
      → latest + total_left (map job_of (qsort rr_compare proc)) ≤ int_max
      → length (map job_of (qsort rr_compare proc))
          * (latest + total_left (map job_of (qsort rr_compare proc)))
        ≤ int_max
      → latest + total_left (map job_of (qsort rr_compare proc)) < fuel
      → Returns (rr_main kernel stray qsort fuel proc) [] (
          FollowsTurns
            (map job_of (qsort rr_compare proc))
            (latest + total_left (map job_of (qsort rr_compare proc))))
  unfolding rr_main
  rr_main-FollowsTurns qsort fuel proc latest reliable allows sorting work some_proc early fits
        sum_fits enough =
      bind_rule (prepare kernel stray) (λ _. rest) (prepare-Quiet [] reliable allows)
        λ _ tr q.
          bind_rule (loop kernel stray fuel (map unstarted sorted)) (report kernel stray)
            (loop_ends fuel (map unstarted sorted) js tr latest reliable
              (qsort-jobs_ne sorting rr_compare proc some_proc) (unstarted-Shows sorted jobs)
              (jobs_left sorted jobs) early fits sum_fits enough q)
            (report_rule js latest (latest + total_left js))
    where
      sorted : List Process
      sorted = qsort rr_compare proc

      js : List Job
      js = map job_of sorted

      rest : M (Option State)
      rest = loop kernel stray fuel (map unstarted sorted) >>= report kernel stray

      jobs : All IsJob sorted
      jobs = qsort-All sorting rr_compare proc work
