-- ===== src/Main/Agree.antt =====
-- The four schedulers on one table: the times at which they are through.
use os_project.Prelude.{ℕ, ◌+◌, ◌*◌, ◌≤◌, ◌<◌, ◌≢◌, ◌≡◌, some, List, [], All, map, length, arith}
use os_project.Process.{Process}
use os_project.Process.Work.{total_left}
use os_project.Process.Workload.{IsWorkload, job_of}
use os_project.Process.Sorting.{Qsort, IsQsort}
use os_project.Process.Makespan.{IsMakespan, IsMakespan-unique}
use os_project.Process.Makespan.Sorted.{sorted-ArrivesBy, sorted-total_left, sorted-length}
use os_project.Os.{Kernel, IsReliable, AllowsPolicies, int_max}
use os_project.Os.Triple.{Returns, weaken, Exits, weaken_exit}
use os_project.Psjf.{psjf}
use os_project.Psjf.Order.{NoneMarked}
use os_project.Psjf.Makespan.{psjf-EndsAtMakespan}
use os_project.Fifo.{fifo}
use os_project.Fifo.Makespan.{fifo-EndsAtMakespan, last_finish-le}
use os_project.Fifo.Schedule.{last_finish}
use os_project.Fifo.Control.{compare}
use os_project.Sjf.{sjf, cmp}
use os_project.Sjf.Makespan.{sjf-EndsAtMakespan}
use os_project.Rr.{rr_main}
use os_project.Rr.Control.{rr_compare}
use os_project.Rr.Makespan.{rr_main-EndsAtMakespan}
use os_project.Psjf
use os_project.Fifo
use os_project.Psjf.Makespan as PsjfMakespan
use os_project.Sjf.Makespan as SjfMakespan
use os_project.Rr.Makespan as RrMakespan

module _ (kernel : Kernel) (stray : Process) (qsort : Qsort) (fuel : ℕ) (proc : List Process) where
  -- Each scheduler is through at the time `e`: the clocks of PSJF and FIFO show it when they return,
  -- and SJF and RR report the last end at that time.
  pub record AllEndAt (e : ℕ) : Type 0 where
    pub psjf_ends :
        Returns
          (psjf kernel stray fuel proc)
          []
          (λ r tr'. (s : Psjf.State) × (r ≡ some s) × (s.time ≡ e))
    pub fifo_ends :
        Returns
          (fifo kernel stray qsort fuel proc)
          []
          (λ r tr'. (s : Fifo.State) × (r ≡ some s) × (s.time_cnt ≡ e))
    pub sjf_ends :
        Exits (sjf kernel stray qsort fuel proc) [] 0 (λ tr'. SjfMakespan.last_end tr' ≡ e)
    pub rr_ends :
        Returns (rr_main kernel stray qsort fuel proc) [] (λ r tr'. RrMakespan.last_end tr' ≡ e)

  -- For a kernel none of whose calls fails and every qsort, on a workload that is not empty and
  -- none of whose entries is marked as waiting, where the last arrival and all the work together
  -- are below the largest int and the fuel, and that many times the number of processes fits an
  -- int, all four schedulers are through at the same time, the makespan of the jobs: PSJF and FIFO
  -- return with their clocks at it, and SJF and RR report the last end at it.
  pub schedulers-AllEndAt :
      (latest : ℕ)
      → IsReliable kernel
      → AllowsPolicies kernel
      → IsQsort qsort
      → IsWorkload proc
      → NoneMarked proc
      → proc ≢ []
      → All (λ j. j.arrival ≤ latest) (map job_of proc)
      → latest + total_left (map job_of proc) < int_max
      → length (map job_of proc) * (latest + total_left (map job_of proc)) ≤ int_max
      → latest + total_left (map job_of proc) < fuel
      → (e : ℕ) × IsMakespan 0 (map job_of proc) e × AllEndAt e
  schedulers-AllEndAt latest reliable allows sorting work unmarked some_proc early fits sum_fits
        enough =
      (
        e,
        makespan,
        record {
          psjf_ends = weaken through λ r tr' (s, ended, m). (s, ended, same s.time m);
          fifo_ends =
              weaken
                (fifo-EndsAtMakespan kernel stray qsort fuel proc [] reliable sorting work some_proc
                  (omega (arith, by_then)) (omega (arith, by_then)))
                λ r tr' (s, ended, m). (s, ended, same s.time_cnt m);
          sjf_ends =
              weaken_exit
                (sjf-EndsAtMakespan kernel stray qsort fuel proc latest reliable sorting work
                  some_proc (sorted-ArrivesBy sorting cmp proc latest early)
                  (rw (sorted-total_left sorting cmp proc) (omega arith))
                  (rw (sorted-total_left sorting cmp proc) enough))
                λ tr' m. same (SjfMakespan.last_end tr') m;
          rr_ends =
              weaken
                (rr_main-EndsAtMakespan kernel stray qsort fuel proc latest reliable allows sorting
                  work some_proc (sorted-ArrivesBy sorting rr_compare proc latest early)
                  (rw (sorted-total_left sorting rr_compare proc) (omega arith))
                  (rw
                    (
                      sorted-total_left sorting rr_compare proc,
                      sorted-length sorting rr_compare proc,
                    )
                    sum_fits)
                  (rw (sorted-total_left sorting rr_compare proc) enough))
                λ r tr' (s, ended, m). same (RrMakespan.last_end tr') m;
        },
      )
    where
      through :
          Returns (psjf kernel stray fuel proc) [] (PsjfMakespan.EndsAtMakespan kernel stray proc)
      through =
          psjf-EndsAtMakespan kernel stray fuel proc latest reliable work unmarked early fits enough

      e : ℕ
      e = through.post.0.time

      makespan : IsMakespan 0 (map job_of proc) e
      makespan = through.post.2

      same : (e' : ℕ) → IsMakespan 0 (map job_of proc) e' → e' ≡ e
      same e' m = IsMakespan-unique 0 (map job_of proc) e' e m makespan

      by_then :
          last_finish 0 (map job_of (qsort compare proc)) ≤ latest + total_left (map job_of proc)
      by_then = last_finish-le qsort proc sorting work latest early
