-- ===== src/Sjf/Order.antt =====
-- SJF.c: a run of `SJF`, and the plan of its policy.
use os_project.Prelude.{
  ℕ, ◌+◌, ◌≤◌, ◌<◌, ◌≢◌, ◌≡◌, refl, sym, length-pos, ap, ◌∙◌, ltb, ltb_ℤ, Option, none, some, List,
  [], ◌∷◌, All, map, ℤ, pos, arith,
}
use os_project.Process.{Process, Name, unstarted}
use os_project.Process.Sorting.{Qsort, IsQsort, IsComparator}
use os_project.Process.Workload.{
  IsWorkload, is_job, IsJob, job_of, qsort-All, qsort-jobs_ne, unstarted-Shows, jobs_left,
}
use os_project.Process.Jobs.{Job, Shows}
use os_project.Process.Work.{total_left, done_count-zero}
use os_project.Os.{
  Trace, Kernel, IsReliable, int_max, M, ◌>>=◌, ◌>>◌, say, called, getpid, sched_setscheduler,
  scheduler_call, sched_other, affinity_call,
}
use os_project.Os.Loop.{forever_rule, Ended}
use os_project.Os.Triple.{Returns, step_rule, run_rule, Exits, exit_rule}
use os_project.Cpu.{proc_assign_cpu, parent_cpu}
use os_project.Cpu.Laws.{proc_assign_cpu_run}
use os_project.Sjf.{State, cmp, check, round, prepare, loop, leave, sjf}
use os_project.Sjf.Plan.{Plan}
use os_project.Sjf.Steps.{seen, Quiet, check-Quiet}
use os_project.Sjf.Invariant.{Inv, Done, measure, vacant_at}
use os_project.Sjf.Rounds.{round-Progress}

-- On times that are not negative `cmp` is positive exactly where the first is the later one.
cmp-arrival :
    (p q : Process)
    → IsJob p
    → IsJob q
    → ltb_ℤ (pos 0) (cmp p q) ≡ ltb (job_of q).arrival (job_of p).arrival
unfolding cmp
cmp-arrival p q jp jq = ground arith

-- On processes that are ready at a time between 0 and the largest int and have something to run,
-- the comparator of SJF, a difference that may wrap around, orders every two processes and is
-- transitive.
pub cmp-IsComparator : IsComparator is_job cmp
cmp-IsComparator = record {
  either = λ p q jp jq h. ground (arith, cmp-arrival p q jp jq, cmp-arrival q p jq jp);
  trans = λ p q r jp jq jr h k.
      ground (arith, cmp-arrival p q jp jq, cmp-arrival q r jq jr, cmp-arrival p r jp jr);
}

abbrev fresh_state : List Process → State
fresh_state ps = record { proc = ps; running = none; finish_cnt = 0; ntime = 0; t_last = 0 }

module _ (kernel : Kernel) (stray : Process) where
  prepare-Quiet : (tr : Trace) → IsReliable kernel → Returns (prepare kernel stray) tr (Quiet tr)
  unfolding prepare
  prepare-Quiet tr reliable =
      step_rule (getpid kernel) (λ me. proc_assign_cpu kernel me parent_cpu >>= λ _. demote) refl
        (step_rule (proc_assign_cpu kernel me parent_cpu) (λ _. demote)
          (proc_assign_cpu_run kernel me parent_cpu tr reliable (omega arith))
          (step_rule (getpid kernel)
            (λ me2. sched_setscheduler kernel me2 sched_other 0 >>= check kernel stray) refl
            (step_rule (sched_setscheduler kernel (kernel.own_pid assigned) sched_other 0)
              (check kernel stray) refl
              (check-Quiet kernel stray
                (kernel.scheduler_answer (kernel.own_pid assigned) sched_other 0 assigned)
                (scheduler_call (kernel.own_pid assigned) sched_other 0 ∷ assigned)))))
    where
      me : ℤ
      me = kernel.own_pid tr

      assigned : Trace
      assigned = affinity_call me parent_cpu ∷ tr

      demote : M Unit
      demote = getpid kernel >>= λ me2.
          sched_setscheduler kernel me2 sched_other 0 >>= check kernel stray

  -- From a fresh table the loop ends.
  loop_ends :
      (fuel : ℕ) (ps : List Process) (js : List Job) (tr : Trace) (latest : ℕ)
      → IsReliable kernel
      → js ≢ []
      → Shows 0 ps js
      → All (λ k. 0 < k.left) js
      → All (λ k. k.arrival ≤ latest) js
      → latest + total_left js ≤ int_max
      → latest + total_left js < fuel
      → seen tr ≡ (0, [])
      → Returns (loop kernel stray fuel ps) tr (
          Ended
            (Inv js latest (latest + total_left js))
            (Done js latest (latest + total_left js))
            (measure js latest (latest + total_left js)))
  unfolding loop
  loop_ends fuel ps js tr latest reliable some_job shown left early fits enough unseen =
      forever_rule (Inv js latest limit) (Done js latest limit) (measure js latest limit)
        (round kernel stray) (round-Progress js latest limit kernel stray reliable fits) fuel
        (fresh_state ps) tr (omega arith)
        (vacant_at js [] (record {
          facts = record {
            shown = shown;
            budget = record { arrivals = early; room = omega arith };
            reports = unseen;
          };
          vacant = refl;
          counted = sym (done_count-zero js left);
          undone = rw (done_count-zero js left) (length-pos js some_job);
          plan = λ out p. p;
        }))
    where
      limit : ℕ
      limit = latest + total_left js

  -- What SJF promises of its exit: the names and times in the trace are a plan of the jobs, and the
  -- last of the times is no later than the last arrival and all the work together.
  abbrev pub FollowsPlan : List Job → ℕ → Trace → Type 0
  FollowsPlan js limit tr' =
      (out : List (Name × ℕ)) × (Plan 0 js out) × ((seen tr').1 ≡ out) × ((seen tr').0 ≤ limit)

  leave_rule :
      (js : List Job) (latest limit : ℕ) (r : Option State) (tr : Trace)
      → Ended (Inv js latest limit) (Done js latest limit) (measure js latest limit) r tr
      → Exits (leave kernel stray r) tr 0 (FollowsPlan js limit)
  unfolding leave
  leave_rule js latest limit none tr d = absurd d
  leave_rule js latest limit (some s) tr d = record {
    after = tr;
    run = refl;
    post = (
      d.out,
      d.plan,
      ap (λ (v : ℕ × List (Name × ℕ)). v.1) d.reports,
      rw (ap (λ (v : ℕ × List (Name × ℕ)). v.0) d.reports) d.in_time,
    );
  }

  -- For a kernel whose fork and sched_setaffinity do not fail and every qsort, on a workload that
  -- is not empty, where the last arrival and all the work together fit an int and are below the
  -- fuel, SJF exits with 0, and the lines that report an end name the processes in the order and at
  -- the times of the non-preemptive shortest-job-first policy.
  pub sjf-FollowsPlan :
      (qsort : Qsort) (fuel : ℕ) (proc : List Process) (latest : ℕ)
      → IsReliable kernel
      → IsQsort qsort
      → IsWorkload proc
      → proc ≢ []
      → All (λ k. k.arrival ≤ latest) (map job_of (qsort cmp proc))
      → latest + total_left (map job_of (qsort cmp proc)) ≤ int_max
      → latest + total_left (map job_of (qsort cmp proc)) < fuel
      → Exits (sjf kernel stray qsort fuel proc) [] 0 (
          FollowsPlan
            (map job_of (qsort cmp proc))
            (latest + total_left (map job_of (qsort cmp proc))))
  unfolding sjf
  sjf-FollowsPlan qsort fuel proc latest reliable sorting work some_proc early fits enough =
      exit_rule (say called) (λ _. prepare kernel stray >> rest) (run_rule (say called) refl refl)
        λ _ tr q.
          exit_rule (prepare kernel stray) (λ _. rest) (prepare-Quiet tr reliable)
            λ _ tr' q'.
              exit_rule (loop kernel stray fuel (map unstarted sorted)) (leave kernel stray)
                (loop_ends fuel (map unstarted sorted) js tr' latest reliable
                  (qsort-jobs_ne sorting cmp proc some_proc) (unstarted-Shows sorted jobs)
                  (jobs_left sorted jobs) early fits enough (q' ∙ q))
                (leave_rule js latest (latest + total_left js))
    where
      sorted : List Process
      sorted = qsort cmp proc

      js : List Job
      js = map job_of sorted

      rest : M (Option State)
      rest = loop kernel stray fuel (map unstarted sorted) >>= leave kernel stray

      jobs : All IsJob sorted
      jobs = qsort-All sorting cmp proc work
