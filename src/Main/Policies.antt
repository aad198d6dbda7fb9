-- ===== src/Main/Policies.antt =====
-- The program from its input file on: each policy's promise, for a file of the right layout.
pub mod Files
use os_project.Prelude.{
  ℕ, suc, ◌+◌, ◌*◌, ◌≤◌, ◌<◌, ◌≡◌, ◌≢◌, refl, Option, none, some, List, [], ◌∷◌, false, eq_ℤ, pos,
  map, All, length, arith,
}
use os_project.Process.{Process, Name}
use os_project.Process.Work.{total_left}
use os_project.Process.Workload.{IsJob, IsWorkload, All-IsWorkload, job_of}
use os_project.Process.Sorting.{Qsort, IsQsort}
use os_project.Os.{Kernel, IsReliable, AllowsPolicies, Trace, M, int_max, ◌>>=◌}
use os_project.Os.Triple.{
  Returns, bind_rule, pure_rule, same-Returns, Exits, same-Exits, Exits-before,
}
use os_project.Psjf.{psjf}
use os_project.Psjf.Order.{NoneMarked, FollowsTimeline, psjf-FollowsTimeline}
use os_project.Sjf.{cmp, sjf}
use os_project.Sjf.Order.{FollowsPlan, sjf-FollowsPlan}
use os_project.Fifo.{fifo}
use os_project.Fifo.Control.{compare}
use os_project.Fifo.Schedule.{last_finish}
use os_project.Fifo.Order.{FollowsSchedule, fifo-FollowsSchedule}
use os_project.Rr.{rr_main}
use os_project.Rr.Control.{rr_compare}
use os_project.Rr.Order.{FollowsTurns, rr_main-FollowsTurns}
use os_project.Main.{main, run_policy, done, psjf_name, rr_name, sjf_name, fifo_name}
use os_project.Main.Input.{Text}
use os_project.Main.Input.Layout.{
  Line, file_text, digits_value, IsWord, IsNumeral, IsLine, table_of, scan_input-file_text,
}
use os_project.Main.Policies.Files.{
  psjf_name-IsWord, rr_name-IsWord, sjf_name-IsWord, fifo_name-IsWord, IsJobLine, lines_ok,
  table-jobs, table-NoneMarked,
}

-- What `main` promises where a scheduler returns: it returns 0 when the scheduler has kept its
-- promise.
abbrev pub Completes : {S : Type 0} → (Option S → Trace → Type 0) → Option ℕ → Trace → Type 0
Completes {S} promise status tr' = (status ≡ some 0) × (final : S) × promise (some final) tr'

module _ {S : Type 0} (promise : Option S → Trace → Type 0)
    (in_time : (tr : Trace) → promise none tr → ⊥) where
  done_rule : (r : Option S) (tr : Trace) → promise r tr → Returns (done r) tr (Completes promise)
  done_rule none tr p = absurd (in_time tr p)
  done_rule (some s) tr p = pure_rule (some 0) tr (refl, s, p)

  completes :
      (m : M (Option S)) (tr : Trace)
      → Returns m tr promise
      → Returns (m >>= done) tr (Completes promise)
  completes m tr r = bind_rule m done r done_rule

module _ (kernel : Kernel) (stray : Process) (memory : ℕ → Process) (qsort : Qsort)
    (undefined_run : Text → M (Option ℕ)) (fuel : ℕ) (count : Text) (ls : List Line)
    (numeral : IsNumeral count) (counted : digits_value count ≡ length ls)
    (lines : All IsJobLine ls) where
  -- The table that `main` hands to the scheduler, and its jobs.
  abbrev pub table : List Process
  table = table_of memory 0 ls

  workload : IsWorkload table
  workload = All-IsWorkload table (table-jobs memory 0 ls lines)

  main_run :
      (policy : Name) (tr : Trace)
      → IsWord 16 policy
      → main kernel stray memory qsort undefined_run fuel (some (file_text policy count ls)) tr
        ≡ run_policy kernel stray memory qsort undefined_run fuel policy table tr
  unfolding main
  main_run policy tr word =
      rw (scan_input-file_text memory policy count ls word numeral counted (lines_ok ls lines))

  -- On a file of the right layout that asks for PSJF, whose processes have something to run, where
  -- malloc's memory marks no entry as waiting, the kernel's fork and sched_setaffinity do not fail,
  -- and the last arrival and all the work together are below the largest int and the fuel, the
  -- program returns 0 after it has given each unit of time to the first of the shortest jobs of the
  -- file that had arrived.
  pub main-psjf :
      (latest : ℕ)
      → IsReliable kernel
      → ((i : ℕ) → eq_ℤ (memory i).waiting (pos 1) ≡ false)
      → All (λ j. j.arrival ≤ latest) (map job_of table)
      → latest + total_left (map job_of table) < int_max
      → latest + total_left (map job_of table) < fuel
      → Returns
          (main kernel stray memory qsort undefined_run fuel (some (file_text psjf_name count ls)))
          []
          (Completes (
            FollowsTimeline kernel stray
              (map job_of table)
              (latest + total_left (map job_of table))))
  unfolding run_policy
  main-psjf latest reliable unmarked early fits enough =
      same-Returns
        (main kernel stray memory qsort undefined_run fuel (some (file_text psjf_name count ls)))
        (run_policy kernel stray memory qsort undefined_run fuel psjf_name table)
        (main_run psjf_name [] psjf_name-IsWord)
        (completes
          (FollowsTimeline kernel stray (map job_of table) (latest + total_left (map job_of table)))
          (λ tr d. cc) (psjf kernel stray fuel table) []
          (psjf-FollowsTimeline kernel stray fuel table latest reliable workload
            (table-NoneMarked memory unmarked 0 ls) early fits enough))

  module _ (reliable : IsReliable kernel) (sorting : IsQsort qsort) (some_line : table ≢ []) where
    -- On a file of the right layout that asks for SJF, whose processes, one at least, have
    -- something to run, where qsort permutes and sorts, the kernel's fork and sched_setaffinity do
    -- not fail, and the last arrival and all the work together fit an int and are below the fuel,
    -- the program exits with 0 after a plan of the shortest-job-first policy for the file's
    -- processes.
    pub main-sjf :
        (latest : ℕ)
        → All (λ j. j.arrival ≤ latest) (map job_of (qsort cmp table))
        → latest + total_left (map job_of (qsort cmp table)) ≤ int_max
        → latest + total_left (map job_of (qsort cmp table)) < fuel
        → Exits
            (main kernel stray memory qsort undefined_run fuel (some (file_text sjf_name count ls)))
            []
            0
            (FollowsPlan kernel stray
              (map job_of (qsort cmp table))
              (latest + total_left (map job_of (qsort cmp table))))
    unfolding run_policy
    main-sjf latest early fits enough =
        same-Exits
          (main kernel stray memory qsort undefined_run fuel (some (file_text sjf_name count ls)))
          (run_policy kernel stray memory qsort undefined_run fuel sjf_name table)
          (main_run sjf_name [] sjf_name-IsWord)
          (Exits-before (sjf kernel stray qsort fuel table) done (
            sjf-FollowsPlan kernel stray qsort fuel table latest reliable sorting workload some_line
              early fits enough))

    -- On a file of the right layout that asks for FIFO, whose processes, one at least, have
    -- something to run, where qsort permutes and sorts, the kernel's fork and sched_setaffinity do
    -- not fail, and the last time of the schedule fits an int and is below the fuel, the program
    -- returns 0 after the first-come-first-served schedule of the file's processes.
    pub main-fifo :
        last_finish 0 (map job_of (qsort compare table)) ≤ int_max
        → last_finish 0 (map job_of (qsort compare table)) < fuel
        → Returns
            (main kernel stray memory qsort undefined_run fuel
              (some (file_text fifo_name count ls)))
            []
            (Completes (FollowsSchedule kernel stray [] (map job_of (qsort compare table))))
    unfolding run_policy
    main-fifo fits enough =
        same-Returns
          (main kernel stray memory qsort undefined_run fuel (some (file_text fifo_name count ls)))
          (run_policy kernel stray memory qsort undefined_run fuel fifo_name table)
          (main_run fifo_name [] fifo_name-IsWord)
          (completes (FollowsSchedule kernel stray [] (map job_of (qsort compare table)))
            (λ tr d. cc) (fifo kernel stray qsort fuel table) []
            (fifo-FollowsSchedule kernel stray qsort fuel table [] reliable sorting workload
              some_line fits enough))

    -- On a file of the right layout that asks for RR, whose processes, one at least, have something
    -- to run, where qsort permutes and sorts, none of the kernel's calls fails, and the last
    -- arrival and all the work together fit an int, that many times the number of processes too,
    -- and are below the fuel, the program returns 0 after turns of the policy for the file's
    -- processes and the line with their average.
    pub main-rr :
        (latest : ℕ)
        → AllowsPolicies kernel
        → All (λ j. j.arrival ≤ latest) (map job_of (qsort rr_compare table))
        → latest + total_left (map job_of (qsort rr_compare table)) ≤ int_max
        → length (map job_of (qsort rr_compare table))
            * (latest + total_left (map job_of (qsort rr_compare table)))
          ≤ int_max
        → latest + total_left (map job_of (qsort rr_compare table)) < fuel
        → Returns
            (main kernel stray memory qsort undefined_run fuel (some (file_text rr_name count ls)))
            []
            (Completes (
              FollowsTurns kernel stray
                (map job_of (qsort rr_compare table))
                (latest + total_left (map job_of (qsort rr_compare table)))))
    unfolding run_policy
    main-rr latest allows early fits sum_fits enough =
        same-Returns
          (main kernel stray memory qsort undefined_run fuel (some (file_text rr_name count ls)))
          (run_policy kernel stray memory qsort undefined_run fuel rr_name table)
          (main_run rr_name [] rr_name-IsWord)
          (completes
            (FollowsTurns kernel stray (map job_of (qsort rr_compare table))
              (latest + total_left (map job_of (qsort rr_compare table))))
            (λ tr d. cc) (rr_main kernel stray qsort fuel table) []
            (rr_main-FollowsTurns kernel stray qsort fuel table latest reliable allows sorting
              workload some_line early fits sum_fits enough))
