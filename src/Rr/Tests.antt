-- ===== src/Rr/Tests.antt =====
-- Round robin at small tables.
use os_project.Prelude.{ℕ, ◌%◌, ◌≡◌, refl, none, some, List, [], ◌∷◌, map, pos, length, arith}
use os_project.Process.{Process}
use os_project.Process.Jobs.{Shows}
use os_project.Process.Sorting.{insertion_sort, insertion_sort-IsQsort}
use os_project.Process.Work.{total_left}
use os_project.Process.Workload.{job_of}
use os_project.Os.Triple.{Returns}
use os_project.Os.Loop.{idle_outcome}
use os_project.Samples.{
  obliging, obliging-IsReliable, obliging-AllowsPolicies, stray, job, two_jobs, two_jobs-IsWorkload,
}
use os_project.Rr.{rr_main, rotate}
use os_project.Rr.Ring.{NextInRing, rotate_found}
use os_project.Rr.Control.{rr_compare}
use os_project.Os.{sched_other}
use os_project.Os.Awake.{OneAwake}
use os_project.Rr.Awake.{rr_main-OneAwake}
use os_project.Rr.Lost.{rr_main_forkless, rr_main_nil}
use os_project.Samples.{forkless}
use os_project.Process.{unstarted}
use os_project.Os.Keeps.{Keeps}
use os_project.Rr.{State}
use os_project.Rr.Unique.{rr_main-seen}
use os_project.Rr.Control.Laws.{seen}
use os_project.Samples.{sparing, sparing-IsReliable, sparing-AllowsPolicies}
use os_project.Rr.Makespan.{EndsAtMakespan, rr_main-EndsAtMakespan}
use os_project.Rr.Order.{FollowsTurns, rr_main-FollowsTurns}

rr_main-FollowsTurns_example :
    Returns
      (rr_main obliging stray insertion_sort 7 two_jobs)
      []
      (FollowsTurns obliging stray (map job_of (insertion_sort rr_compare two_jobs)) 6)
unfolding insertion_sort rr_compare total_left
rr_main-FollowsTurns_example =
    rr_main-FollowsTurns obliging stray insertion_sort 7 two_jobs 1 obliging-IsReliable
      obliging-AllowsPolicies insertion_sort-IsQsort two_jobs-IsWorkload (λ e. cc)
      (omega arith, (omega arith, tt)) (omega arith) (omega arith) (omega arith)

-- Two processes that have arrived; the first one's turn is over.
abbrev started_table : List Process
started_table = record (job 2 0 2) { pid = pos 7 } ∷ record (job 1 0 1) { pid = pos 8 } ∷ []

started-Shows : Shows 1 started_table (map job_of started_table)
started-Shows = (
  record { name_shown = refl; ready_shown = refl; exec_shown = refl; pid_shown = refl },
  (record { name_shown = refl; ready_shown = refl; exec_shown = refl; pid_shown = refl }, tt),
)

rotate_found_example :
    (k : ℕ) × (rotate obliging stray started_table (length started_table) (1 % length started_table)
      ≡ some k)
    × NextInRing 0 (map job_of started_table) 0 k
rotate_found_example =
    rotate_found obliging stray 0 started_table (map job_of started_table) 0 started-Shows
      (omega arith) refl

rr_main-EndsAtMakespan_example :
    Returns
      (rr_main obliging stray insertion_sort 7 two_jobs)
      []
      (EndsAtMakespan obliging stray two_jobs)
unfolding insertion_sort rr_compare total_left
rr_main-EndsAtMakespan_example =
    rr_main-EndsAtMakespan obliging stray insertion_sort 7 two_jobs 1 obliging-IsReliable
      obliging-AllowsPolicies insertion_sort-IsQsort two_jobs-IsWorkload (λ e. cc)
      (omega arith, (omega arith, tt)) (omega arith) (omega arith) (omega arith)

rr_main-OneAwake_example :
    OneAwake (pos 99) sched_other (rr_main obliging stray insertion_sort 7 two_jobs []).1
rr_main-OneAwake_example = rr_main-OneAwake obliging stray insertion_sort 7 two_jobs

rr_main_forkless_example : (rr_main forkless stray insertion_sort 9 two_jobs []).0 ≡ idle_outcome 9
rr_main_forkless_example =
    rr_main_forkless forkless stray insertion_sort 9 two_jobs [] (λ tr. refl) (λ tr. refl)
      (λ tr tr'. refl)

rr_main_nil_example : (rr_main obliging stray insertion_sort 9 [] []).0 ≡ idle_outcome 9
rr_main_nil_example =
    rr_main_nil obliging stray insertion_sort 9 [] insertion_sort-IsQsort (λ tr. refl)
      (λ tr tr'. refl)

abbrev fresh : State
fresh = record {
  proc = map unstarted two_jobs;
  running = none;
  time_now = 0;
  time_last = 0;
  finish_cnt = 0;
  wait = pos 0;
}

rr_main-seen_example :
    (seen (rr_main obliging stray insertion_sort 7 two_jobs []).1).1
    ≡ (seen (rr_main sparing stray insertion_sort 7 two_jobs []).1).1
unfolding insertion_sort rr_compare total_left
rr_main-seen_example =
    rr_main-seen obliging sparing stray insertion_sort 7 two_jobs 1 obliging-IsReliable
      sparing-IsReliable obliging-AllowsPolicies sparing-AllowsPolicies insertion_sort-IsQsort
      two_jobs-IsWorkload (λ e. cc) (omega arith, (omega arith, tt)) (omega arith) (omega arith)
      (omega arith)
