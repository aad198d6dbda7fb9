-- ===== src/Fifo/Tests.antt =====
-- FIFO at small tables.
use os_project.Prelude.{◌≡◌, refl, [], ◌∷◌, map, arith, none, some, pos}
use os_project.Process.{least_by}
use os_project.Process.Sorting.{insertion_sort, insertion_sort-IsQsort}
use os_project.Process.Workload.{job_of}
use os_project.Os.Loop.{forever, idle_outcome}
use os_project.Os.Triple.{Returns}
use os_project.Samples.{obliging, obliging-IsReliable, stray, two_jobs, two_jobs-IsWorkload}
use os_project.Fifo.Control.{
  time_unit, compare, proc_assign_cpu, proc_wakeup, proc_exec, proc_block,
}
use os_project.Fifo.Control.Laws.{endings}
use os_project.Fifo.{
  fifo, print_table, prepare, round, reap, advance, arrivals, arrive, next_proc, switch, pass,
  run_down, is_over, State,
}
use os_project.Os.{sched_idle}
use os_project.Fifo.Stray.{last_change, switch-last_change}
use os_project.Fifo.Lost.{fifo_forkless, fifo_nil}
use os_project.Samples.{forkless}
use os_project.Os.Awake.{OneAwake}
use os_project.Os.{sched_other}
use os_project.Fifo.Awake.{fifo-OneAwake}
use os_project.Fifo.Makespan.{EndsAtMakespan, fifo-EndsAtMakespan}
use os_project.Fifo.Order.{FollowsSchedule, fifo-FollowsSchedule}

program : Unit {0}
unfolding fifo print_table prepare round reap advance arrivals arrive next_proc switch pass run_down
    is_over least_by forever insertion_sort time_unit compare proc_assign_cpu proc_wakeup proc_exec
    proc_block
program = tt

-- The first process ends at 3, and the second, which had to wait, at 5.
fifo-two_jobs :
    endings (fifo obliging stray insertion_sort 6 two_jobs []).1 ≡ (1 ∷ [], 3) ∷ (2 ∷ [], 5) ∷ []
unfolding program
fifo-two_jobs = refl

fifo-FollowsSchedule_example :
    Returns
      (fifo obliging stray insertion_sort 6 two_jobs)
      []
      (FollowsSchedule obliging stray [] (map job_of (insertion_sort compare two_jobs)))
unfolding insertion_sort compare
fifo-FollowsSchedule_example =
    fifo-FollowsSchedule obliging stray insertion_sort 6 two_jobs [] obliging-IsReliable
      insertion_sort-IsQsort two_jobs-IsWorkload (λ e. cc) (omega arith) (omega arith)

abbrev vacant_state : State
vacant_state = record { proc = two_jobs; running = none; finish = 0; time_cnt = 1 }

switch-last_change_example :
    Returns
      (switch obliging stray vacant_state (some 0))
      []
      (λ running tr'. (running ≡ some 0) × (last_change tr' ≡ some (pos 0, sched_idle)))
switch-last_change_example = switch-last_change obliging stray vacant_state 0 [] refl

fifo-EndsAtMakespan_example :
    Returns
      (fifo obliging stray insertion_sort 6 two_jobs)
      []
      (EndsAtMakespan obliging stray two_jobs)
unfolding insertion_sort compare
fifo-EndsAtMakespan_example =
    fifo-EndsAtMakespan obliging stray insertion_sort 6 two_jobs [] obliging-IsReliable
      insertion_sort-IsQsort two_jobs-IsWorkload (λ e. cc) (omega arith) (omega arith)

fifo-OneAwake_example :
    OneAwake (pos 99) sched_other (fifo obliging stray insertion_sort 6 two_jobs []).1
fifo-OneAwake_example = fifo-OneAwake obliging stray (pos 99) insertion_sort 6 two_jobs (λ tr. refl)

fifo_forkless_example : (fifo forkless stray insertion_sort 9 two_jobs []).0 ≡ idle_outcome 9
fifo_forkless_example =
    fifo_forkless forkless stray insertion_sort 9 two_jobs [] (λ tr. refl) (λ tr. refl)

fifo_nil_example : (fifo obliging stray insertion_sort 9 [] []).0 ≡ idle_outcome 9
fifo_nil_example = fifo_nil obliging stray insertion_sort 9 [] insertion_sort-IsQsort (λ tr. refl)
