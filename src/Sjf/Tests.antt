-- ===== src/Sjf/Tests.antt =====
-- SJF at small tables.
use os_project.Prelude.{[], ◌≡◌, refl, map, arith}
use os_project.Process.Sorting.{insertion_sort, insertion_sort-IsQsort}
use os_project.Process.Work.{total_left}
use os_project.Process.Workload.{job_of}
use os_project.Os.Triple.{Exits}
use os_project.Os.Loop.{idle_outcome}
use os_project.Process.First.{Arrived, AtFirst}
use os_project.Sjf.Empty.{sjf_nil}
use os_project.Samples.{obliging, obliging-IsReliable, stray, two_jobs, two_jobs-IsWorkload}
use os_project.Sjf.{cmp, sjf}
use os_project.Sjf.Unique.{sjf-seen}
use os_project.Sjf.Steps.{seen}
use os_project.Sjf.First.{sjf_child, sjf_forkless}
use os_project.Samples.{
  sparing, sparing-IsReliable, forkless, in_child, job, late_jobs, late_jobs-NoneBefore,
  late_jobs_mem,
}
use os_project.Os.Awake.{OneAwake}
use os_project.Os.{sched_fifo}
use os_project.Sjf.Awake.{sjf-OneAwake}
use os_project.Prelude.{pos, pos_part}
use os_project.Process.{unstarted}
use os_project.Sjf.Reaped.Steps.{AllFollow}
use os_project.Sjf.Reaped.{sjf-AllFollow}
use os_project.Sjf.Order.{FollowsPlan, sjf-FollowsPlan}

sjf-FollowsPlan_example :
    Exits
      (sjf obliging stray insertion_sort 7 two_jobs)
      []
      0
      (FollowsPlan obliging stray (map job_of (insertion_sort cmp two_jobs)) 6)
unfolding insertion_sort cmp total_left
sjf-FollowsPlan_example =
    sjf-FollowsPlan obliging stray insertion_sort 7 two_jobs 1 obliging-IsReliable
      insertion_sort-IsQsort two_jobs-IsWorkload (λ e. cc) (omega arith, (omega arith, tt))
      (omega arith) (omega arith)

sjf-seen_example :
    (seen (sjf obliging stray insertion_sort 7 two_jobs []).1).1
    ≡ (seen (sjf sparing stray insertion_sort 7 two_jobs []).1).1
unfolding insertion_sort cmp total_left
sjf-seen_example =
    sjf-seen obliging sparing stray insertion_sort 7 two_jobs 1 obliging-IsReliable
      sparing-IsReliable insertion_sort-IsQsort two_jobs-IsWorkload (λ e. cc)
      (omega arith, (omega arith, tt)) (omega arith) (omega arith)

sjf-OneAwake_example :
    OneAwake (pos 99) sched_fifo (sjf obliging stray insertion_sort 7 two_jobs []).1
sjf-OneAwake_example = sjf-OneAwake obliging stray (pos 99) insertion_sort 7 two_jobs

sjf_nil_example : (sjf obliging stray insertion_sort 9 [] []).0 ≡ idle_outcome 9
sjf_nil_example = sjf_nil obliging stray insertion_sort 9 [] insertion_sort-IsQsort (λ tr. refl)

sjf_forkless_example : Exits (sjf forkless stray insertion_sort 9 late_jobs) [] 1 (AtFirst 2 0 [])
sjf_forkless_example =
    sjf_forkless forkless stray insertion_sort 9 late_jobs (job 1 2 3) 2 [] (λ tr. refl)
      (λ tr. refl) insertion_sort-IsQsort (λ tr. refl) late_jobs_mem refl late_jobs-NoneBefore
      (omega arith) (omega arith)

sjf_child_example :
    Exits
      (sjf in_child stray insertion_sort 9 late_jobs)
      []
      0
      (Arrived (map unstarted (insertion_sort cmp late_jobs)) 2 λ q. AtFirst 2 (pos_part q.exec) [])
sjf_child_example =
    sjf_child in_child stray insertion_sort 9 late_jobs (job 1 2 3) 2 [] (λ tr. refl)
      insertion_sort-IsQsort (λ tr. refl) late_jobs_mem refl late_jobs-NoneBefore (omega arith)
      (omega arith)

sjf-AllFollow_example : AllFollow (sjf obliging stray insertion_sort 7 two_jobs []).1
sjf-AllFollow_example = sjf-AllFollow obliging stray insertion_sort 7 two_jobs
