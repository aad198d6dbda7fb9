-- ===== src/Fifo/Makespan.antt =====
-- FIFO.c: the time on the clock when `FIFO` returns.
use mathlib.Core.Path.{subst}
use os_project.Prelude.{
  ℕ, zero, suc, ◌+◌, ◌-◌, ◌≤◌, ◌<◌, ◌≢◌, ◌⊎◌, inl, inr, ◌≡◌, refl, Option, some, List, [], ◌∷◌, All,
  All-get_or, map, length, get_or, arith,
}
use os_project.Process.{Process}
use os_project.Process.Jobs.{Job, no_job}
use os_project.Process.Work.{total_left, done_count, done_count-zero}
use os_project.Process.Workload.{
  IsWorkload, IsJob, IsWorkload-All, is_job, job_of, IsOrdered, sorted-IsOrdered, jobs_left,
  qsort-All,
}
use os_project.Process.Sorting.{Qsort, IsQsort}
use os_project.Process.Makespan.{late_work, IsBound, IsMakespan, IsMakespan-same, late-IsBound}
use os_project.Process.Makespan.Work.{IsMakespan-after}
use os_project.Process.Makespan.Wait.{IsMakespan-idle, IsMakespan-over}
use os_project.Process.Makespan.Sorted.{sorted-ArrivesBy, sorted-total_left}
use os_project.Process.Makespan.Order.{IsMakespan-qsort}
use os_project.Os.{Trace, Kernel, IsReliable, int_max}
use os_project.Os.Triple.{Returns, weaken}
use os_project.Fifo.{State, fifo}
use os_project.Fifo.Control.{compare}
use os_project.Fifo.Schedule.{completion, last_finish}
use os_project.Fifo.Order.{compare-IsComparator, compare-arrival, fifo-FollowsSchedule}

-- A job that is done does not count.
module _ (j : Job) (js : List Job) (over : j.left ≡ 0) where
  without : (now b : ℕ) → IsBound now (j ∷ js) b → IsBound now js b
  unfolding total_left late_work
  without now b h = record {
    all_work = omega (arith, h.all_work);
    late = λ k lt left. ground (arith, over, h.late (suc k) (omega arith) left);
  }

  late_with :
      (now b : ℕ)
      → IsBound now js b
      → (k : ℕ) → k < suc (length js)
      → 0 < (get_or (j ∷ js) k no_job).left
      → (get_or (j ∷ js) k no_job).arrival + late_work (get_or (j ∷ js) k no_job).arrival (j ∷ js)
        ≤ b
  unfolding late_work
  late_with now b h zero lt left = absurd (omega arith)
  late_with now b h (suc k) lt left = ground (arith, over, h.late k (omega arith) left)

  with_it : (now b : ℕ) → IsBound now js b → IsBound now (j ∷ js) b
  unfolding total_left
  with_it now b h = record { all_work = omega (arith, h.all_work); late = late_with now b h }

  IsMakespan-cons : (now e : ℕ) → IsMakespan now js e → IsMakespan now (j ∷ js) e
  IsMakespan-cons now e = IsMakespan-same now now (j ∷ js) js e λ b. (without now b, with_it now b)

module _ (j : Job) (js : List Job) (later : All (λ k. j.arrival ≤ k.arrival) js)
    (left : All (λ k. 0 < k.left) (j ∷ js)) where
  -- Nothing waits in front of the first arrival.
  idle_until :
      (gap now e : ℕ)
      → now + gap ≡ j.arrival
      → IsMakespan j.arrival (j ∷ js) e
      → IsMakespan now (j ∷ js) e
  idle_until zero now e sum h = subst (λ t. IsMakespan t (j ∷ js) e) (omega arith) h
  idle_until (suc gap) now e sum h =
      IsMakespan-idle now (j ∷ js) (omega (arith, done_count-zero (j ∷ js) left))
        (λ k lt. ground (arith, early k lt)) e (idle_until gap (now + 1) e (omega arith) h)
    where
      early : (k : ℕ) → k < suc (length js) → j.arrival ≤ (get_or (j ∷ js) k no_job).arrival
      early zero lt = omega arith
      early (suc k) lt = All-get_or (λ i. j.arrival ≤ i.arrival) js k no_job later (omega arith)

come_or_late : (a now : ℕ) → (a ≤ now) ⊎ (now < a)
come_or_late a now = omega arith

-- A job that runs from `now` to its end.
IsMakespan-first :
    (now end e : ℕ) (j : Job) (js : List Job)
    → j.arrival ≤ now
    → now + j.left ≡ end
    → IsMakespan end js e
    → IsMakespan now (j ∷ js) e
IsMakespan-first now end e j js come sum h =
    IsMakespan-after now (j ∷ js) 0 j.left e (omega arith) come (omega arith) (
      IsMakespan-cons (record j { left = j.left - j.left }) js (omega arith) (now + j.left) e
        (rw sum h))

last_finish-IsMakespan :
    (now : ℕ) (js : List Job)
    → IsOrdered js
    → All (λ k. 0 < k.left) js
    → IsMakespan now js (last_finish now js)
unfolding done_count
last_finish-IsMakespan now [] ordered left = IsMakespan-over now [] refl
last_finish-IsMakespan now (j ∷ js) ordered left =
    let rest = last_finish-IsMakespan (completion now j) js ordered.1 left.1 in
    elim (come_or_late j.arrival now) [
      | inl come ↦
          IsMakespan-first now (completion now j) (last_finish (completion now j) js) j js come
            (omega arith) rest
      | inr late ↦
          idle_until j js ordered.0 left (j.arrival - now) now (last_finish (completion now j) js)
            (omega arith)
            (IsMakespan-first j.arrival (completion now j) (last_finish (completion now j) js) j js
              (omega arith) (omega arith) rest)
    ]

module _ (qsort : Qsort) (proc : List Process) (sorting : IsQsort qsort)
    (work : IsWorkload proc) where
  sorted-IsMakespan :
      IsMakespan 0
        (map job_of (qsort compare proc))
        (last_finish 0 (map job_of (qsort compare proc)))
  sorted-IsMakespan =
      last_finish-IsMakespan 0 (map job_of (qsort compare proc))
        (sorted-IsOrdered compare compare-arrival (qsort compare proc)
          (sorting.sorts is_job compare proc (IsWorkload-All proc work)
            (compare-IsComparator is_job))
          jobs)
        (jobs_left (qsort compare proc) jobs)
    where
      jobs : All IsJob (qsort compare proc)
      jobs = qsort-All sorting compare proc work

  pub last_finish-le :
      (latest : ℕ)
      → All (λ j. j.arrival ≤ latest) (map job_of proc)
      → last_finish 0 (map job_of (qsort compare proc)) ≤ latest + total_left (map job_of proc)
  last_finish-le latest early = omega (
    arith,
    sorted-IsMakespan.least (latest + total_left (map job_of (qsort compare proc))) (
        late-IsBound latest (map job_of (qsort compare proc))
          (sorted-ArrivesBy sorting compare proc latest early)),
    sorted-total_left sorting compare proc,
  )

module _ (kernel : Kernel) (stray : Process) where
  -- The clock shows the makespan at the end.
  abbrev pub EndsAtMakespan : List Process → Option State → Trace → Type 0
  EndsAtMakespan proc r tr' = (s : State) × (r ≡ some s) × IsMakespan 0 (map job_of proc) s.time_cnt

  -- Under the conditions under which FIFO follows its schedule, its clock shows at its return the
  -- makespan of the table's jobs, which does not depend on how qsort orders them.
  pub fifo-EndsAtMakespan :
      (qsort : Qsort) (fuel : ℕ) (proc : List Process) (tr : Trace)
      → IsReliable kernel
      → IsQsort qsort
      → IsWorkload proc
      → proc ≢ []
      → last_finish 0 (map job_of (qsort compare proc)) ≤ int_max
      → last_finish 0 (map job_of (qsort compare proc)) < fuel
      → Returns (fifo kernel stray qsort fuel proc) tr (EndsAtMakespan proc)
  fifo-EndsAtMakespan qsort fuel proc tr reliable sorting work some_proc fits enough =
      weaken
        (fifo-FollowsSchedule kernel stray qsort fuel proc tr reliable sorting work some_proc fits
          enough)
        λ r tr' (s, ended, counted, clock, lines). (
          s,
          ended,
          rw clock (
              IsMakespan-qsort sorting compare proc
                (last_finish 0 (map job_of (qsort compare proc)))
                (sorted-IsMakespan qsort proc sorting work)),
        )
