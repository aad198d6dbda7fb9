-- ===== src/Fifo/Order.antt =====
-- FIFO.c: a run of `FIFO`, and the first-come-first-served schedule.
use os_project.Prelude.{
  Bool, ℕ, ◌≤◌, ◌<◌, true, ◌≢◌, ◌≡◌, refl, ap, ◌∙◌, Option, none, some, List, [], ◌∷◌, ◌++◌, All,
  map, length, arith,
}
use os_project.Process.{Process, Name, unstarted}
use os_project.Process.Sorting.{Qsort, IsQsort, IsComparator, IsAtMost}
use os_project.Process.Workload.{
  IsOrdered, sorted-IsOrdered, IsWorkload, is_job, IsJob, IsWorkload-All, job_of, qsort-All,
  qsort-jobs_ne, unstarted-Shows, jobs_left,
}
use os_project.Fifo.Control.{compare, parent_cpu, proc_assign_cpu, proc_wakeup}
use os_project.Process.Jobs.{Job, Shows}
use os_project.Os.{
  Trace, Kernel, IsReliable, int_max, M, ◌>>=◌, ◌>>◌, say, print, table_row, parent_assigned,
  getpid,
}
use os_project.Os.Loop.{forever, forever_rule, Ended}
use os_project.Os.Triple.{Returns, bind_rule, step_rule, run_rule, pure_rule, weaken}
use os_project.Fifo.{State, round, print_table, prepare, fifo}
use os_project.Fifo.Control.Laws.{endings, Quiet, proc_assign_cpu-Quiet, proc_wakeup-Quiet}
use os_project.Fifo.Schedule.{finish_times, last_finish}
use os_project.Fifo.Invariant.{Inv, Done, measure, vacant_at}
use os_project.Fifo.Rounds.{round-Progress}

abbrev fresh_state : List Process → State
fresh_state ps = record { proc = ps; running = none; finish = 0; time_cnt = 0 }

-- `compare` is the order of the times of arrival.
pub compare-IsComparator : (meets : Process → Bool) → IsComparator meets compare
unfolding compare
compare-IsComparator meets = record {
  either = λ p q x y h. ground arith;
  trans = λ p q r x y z h k. ground arith;
}

pub compare-arrival :
    (p q : Process)
    → IsAtMost compare p q
    → is_job p ≡ true
    → is_job q ≡ true
    → (job_of p).arrival ≤ (job_of q).arrival
unfolding compare
compare-arrival p q h jp jq = ground arith

module _ (kernel : Kernel) (stray : Process) where
  print_table-Quiet :
      (ps : List Process) (tr : Trace) → Returns (print_table kernel stray ps) tr (Quiet tr)
  unfolding print_table
  print_table-Quiet [] tr = pure_rule tt tr refl
  print_table-Quiet (p ∷ ps) tr =
      step_rule (say (table_row p.name p.ready p.exec)) (λ _. print_table kernel stray ps) refl
        (print_table-Quiet ps (print (table_row p.name p.ready p.exec) ∷ tr))

  prepare-Quiet : (tr : Trace) → IsReliable kernel → Returns (prepare kernel stray) tr (Quiet tr)
  unfolding prepare
  prepare-Quiet tr reliable =
      step_rule (getpid kernel) (λ me. proc_assign_cpu kernel me parent_cpu >>= λ _. wake) refl
        (bind_rule (proc_assign_cpu kernel (kernel.own_pid tr) parent_cpu) (λ _. wake)
          (proc_assign_cpu-Quiet kernel reliable (kernel.own_pid tr) parent_cpu tr)
          λ _ tr' q.
            step_rule (getpid kernel) (λ me. proc_wakeup kernel me >>= λ _. say parent_assigned)
              refl
              (bind_rule (proc_wakeup kernel (kernel.own_pid tr')) (λ _. say parent_assigned)
                (proc_wakeup-Quiet kernel (kernel.own_pid tr') tr')
                λ _ tr'' q'. run_rule (say parent_assigned) refl (q' ∙ q)))
    where
      wake : M Unit
      wake = getpid kernel >>= λ me. proc_wakeup kernel me >>= λ _. say parent_assigned

  -- From a fresh table the loop ends.
  loop_ends :
      (fuel : ℕ) (ps : List Process) (js : List Job) (tr : Trace)
      → IsReliable kernel
      → js ≢ []
      → Shows 0 ps js
      → IsOrdered js
      → All (λ k. 0 < k.left) js
      → last_finish 0 js ≤ int_max
      → last_finish 0 js < fuel
      → Returns (forever fuel (round kernel stray) (fresh_state ps)) tr (
          Ended
            (Inv (endings tr ++ finish_times 0 js) (last_finish 0 js))
            (Done (endings tr ++ finish_times 0 js) (last_finish 0 js))
            (measure (endings tr ++ finish_times 0 js) (last_finish 0 js)))
  loop_ends fuel ps [] tr reliable some_job shown ordered left fits enough = absurd (some_job refl)
  loop_ends fuel ps (j ∷ js) tr reliable some_job shown ordered left fits enough =
      forever_rule (Inv total limit) (Done total limit) (measure total limit) (round kernel stray)
        (round-Progress total limit kernel stray reliable fits) fuel (fresh_state ps) tr
        (omega arith)
        (vacant_at [] js j (record {
          facts = record {
            shown = shown;
            spent = tt;
            pending = left.1;
            ordered = ordered;
            counted = refl;
          };
          vacant = refl;
          left = left.0;
          foretold = refl;
          limited = refl;
        }))
    where
      total : List (Name × ℕ)
      total = endings tr ++ finish_times 0 (j ∷ js)

      limit : ℕ
      limit = last_finish 0 (j ∷ js)

  -- What FIFO promises of its end: it was reached by `break`, every process was reaped, the clock
  -- shows the end of the schedule, and the lines `process ... ended` are those of the schedule.
  abbrev pub FollowsSchedule : Trace → List Job → Option State → Trace → Type 0
  FollowsSchedule tr js r tr' =
      (s : State) × (r ≡ some s)
      × (s.finish ≡ length s.proc)
      × (s.time_cnt ≡ last_finish 0 js)
      × (endings tr' ≡ endings tr ++ finish_times 0 js)

  conclude :
      (tr tr' : Trace) (js : List Job) (total : List (Name × ℕ))
      → total ≡ endings tr ++ finish_times 0 js
      → (r : Option State) (tr'' : Trace)
      → Ended
          (Inv total (last_finish 0 js))
          (Done total (last_finish 0 js))
          (measure total (last_finish 0 js))
          r
          tr''
      → FollowsSchedule tr js r tr''
  conclude tr tr' js total e none tr'' d = absurd d
  conclude tr tr' js total e (some s) tr'' d = (s, refl, d.all_done, d.at_limit, d.reported ∙ e)

  -- For a kernel whose fork and sched_setaffinity do not fail and every qsort, on a workload that
  -- is not empty, and where the last time of the schedule fits an int and is below the fuel, FIFO
  -- leaves its loop by break, its counter of finished processes is the length of the table, and the
  -- ended lines are those of the first-come-first-served schedule of the sorted table.
  pub fifo-FollowsSchedule :
      (qsort : Qsort) (fuel : ℕ) (proc : List Process) (tr : Trace)
      → IsReliable kernel
      → IsQsort qsort
      → IsWorkload proc
      → proc ≢ []
      → last_finish 0 (map job_of (qsort compare proc)) ≤ int_max
      → last_finish 0 (map job_of (qsort compare proc)) < fuel
      → Returns
          (fifo kernel stray qsort fuel proc)
          tr
          (FollowsSchedule tr (map job_of (qsort compare proc)))
  unfolding fifo
  fifo-FollowsSchedule qsort fuel proc tr reliable sorting work some_proc fits enough =
      bind_rule (print_table kernel stray sorted) (λ _. prepare kernel stray >> loop)
        (print_table-Quiet sorted tr)
        λ _ tr' q.
          bind_rule (prepare kernel stray) (λ _. loop) (prepare-Quiet tr' reliable)
            λ _ tr'' q'.
              weaken
                (loop_ends fuel (map unstarted sorted) js tr'' reliable some_job
                  (unstarted-Shows sorted jobs)
                  (sorted-IsOrdered compare compare-arrival sorted
                    (sorting.sorts is_job compare proc (IsWorkload-All proc work)
                      (compare-IsComparator is_job))
                    jobs)
                  (jobs_left sorted jobs) fits enough)
                (conclude tr tr'' js (endings tr'' ++ finish_times 0 js)
                  (ap (λ l. l ++ finish_times 0 js) (q' ∙ q)))
    where
      sorted : List Process
      sorted = qsort compare proc

      js : List Job
      js = map job_of sorted

      loop : M (Option State)
      loop = forever fuel (round kernel stray) (fresh_state (map unstarted sorted))

      jobs : All IsJob sorted
      jobs = qsort-All sorting compare proc work

      some_job : js ≢ []
      some_job = qsort-jobs_ne sorting compare proc some_proc
