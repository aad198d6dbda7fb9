-- ===== src/Psjf/Tests.antt =====
-- PSJF at small tables.
use os_project.Prelude.{
  ℕ, zero, suc, ◌<◌, ◌≡◌, refl, some, List, [], ◌∷◌, map, pos, pos_part, length, get_or, arith,
}
use os_project.Process.{Process}
use os_project.Process.Jobs.{no_job}
use os_project.Process.Waiting.{Shortest}
use os_project.Process.Workload.{job_of}
use os_project.Process.Work.{total_left}
use os_project.Os.{int_max}
use os_project.Os.Triple.{Returns, Exits}
use os_project.Process.First.{Arrived, AtFirst}
use os_project.Samples.{
  obliging, in_child, forkless, late_jobs, late_jobs-NoneBefore, late_jobs_mem, obliging-IsReliable,
  stray, job, two_jobs, two_jobs-IsWorkload,
}
use os_project.Psjf.{psjf, some_process_is_ready, find_min_index, switch}
use os_project.Psjf.Waiting.{Shows, find_min_index-Shortest}
use os_project.Psjf.Priorities.{priority_of, switch-priority_of}
use os_project.Psjf.First.{psjf_child, psjf_forkless}
use os_project.Psjf.Makespan.{EndsAtMakespan, psjf-EndsAtMakespan}
use os_project.Psjf.Order.{FollowsTimeline, psjf-FollowsTimeline}

psjf-FollowsTimeline_example :
    Returns
      (psjf obliging stray 7 two_jobs)
      []
      (FollowsTimeline obliging stray (map job_of two_jobs) 6)
unfolding total_left
psjf-FollowsTimeline_example =
    psjf-FollowsTimeline obliging stray 7 two_jobs 1 obliging-IsReliable two_jobs-IsWorkload
      (refl, (refl, tt)) (omega arith, (omega arith, tt)) (omega arith) (omega arith)

-- Two processes that wait, the second the shorter.
abbrev waiting_table : List Process
waiting_table = record (job 2 0 2) { waiting = pos 1 } ∷ record (job 1 0 1) { waiting = pos 1 } ∷ []

waiting-Shows : Shows 1 waiting_table (map job_of waiting_table)
waiting-Shows = (
  record {
    name_shown = refl;
    ready_shown = refl;
    exec_shown = refl;
    waiting_shown = refl;
    untouched = λ late. omega arith;
  },
  (
    record {
      name_shown = refl;
      ready_shown = refl;
      exec_shown = refl;
      waiting_shown = refl;
      untouched = λ late. omega arith;
    },
    tt,
  ),
)

waiting-small :
    (k : ℕ)
    → k < length (map job_of waiting_table)
    → (get_or (map job_of waiting_table) k no_job).left < int_max
waiting-small zero lt = omega arith
waiting-small (suc zero) lt = omega arith
waiting-small (suc (suc k)) lt = absurd (omega arith)

find_min_index-Shortest_example :
    Shortest 0 (map job_of waiting_table) (find_min_index waiting_table)
unfolding some_process_is_ready
find_min_index-Shortest_example =
    find_min_index-Shortest 0 (map job_of waiting_table) stray waiting_table waiting-Shows
      waiting-small refl

switch-priority_of_example :
    Returns
      (switch obliging (pos 101) (pos 100))
      []
      (λ _ tr'. (priority_of (pos 101) tr' ≡ some 10) × (priority_of (pos 100) tr' ≡ some 90))
switch-priority_of_example = switch-priority_of obliging (pos 101) (pos 100) [] refl refl

psjf-EndsAtMakespan_example :
    Returns (psjf obliging stray 7 two_jobs) [] (EndsAtMakespan obliging stray two_jobs)
unfolding total_left
psjf-EndsAtMakespan_example =
    psjf-EndsAtMakespan obliging stray 7 two_jobs 1 obliging-IsReliable two_jobs-IsWorkload
      (refl, (refl, tt)) (omega arith, (omega arith, tt)) (omega arith) (omega arith)

psjf_child_example :
    Exits
      (psjf in_child stray 9 late_jobs)
      []
      0
      (Arrived late_jobs 2 λ q. AtFirst 2 (pos_part q.exec) [])
psjf_child_example =
    psjf_child in_child stray 9 late_jobs (job 1 2 3) 2 [] (λ tr. refl) (λ tr. refl)
      (refl, (refl, tt)) late_jobs_mem refl late_jobs-NoneBefore (omega arith) (omega arith)

psjf_forkless_example : Exits (psjf forkless stray 9 late_jobs) [] 1 (AtFirst 2 0 [])
psjf_forkless_example =
    psjf_forkless forkless stray 9 late_jobs (job 1 2 3) 2 [] (λ tr. refl) (λ tr. refl) (λ tr. refl)
      (refl, (refl, tt)) late_jobs_mem refl late_jobs-NoneBefore (omega arith) (omega arith)
