-- ===== src/Rr/Makespan.antt =====
-- RR.c: the time at which `RR_main` reaps the last process.
use os_project.Prelude.{
  ℕ, ◌+◌, ◌*◌, ◌≤◌, ◌<◌, ◌≢◌, ◌≡◌, refl, ap, ◌∙◌, Option, none, some, List, [], ◌∷◌, All, map,
  length, get_or, arith,
}
use os_project.Process.{Process}
use os_project.Process.Jobs.{Job, no_job}
use os_project.Process.Work.{total_left, done_count}
use os_project.Process.Workload.{IsWorkload, job_of}
use os_project.Process.Sorting.{Qsort, IsQsort}
use os_project.Process.Makespan.{IsMakespan, last_time}
use os_project.Process.Makespan.Work.{arrival-after, IsMakespan-after}
use os_project.Process.Makespan.Wait.{IsMakespan-idle, IsMakespan-over}
use os_project.Process.Makespan.Order.{IsMakespan-qsort}
use os_project.Os.{Trace, Kernel, IsReliable, AllowsPolicies, int_max}
use os_project.Os.Triple.{Returns, weaken}
use os_project.Rr.{State, rr_main}
use os_project.Rr.Control.{rr_compare}
use os_project.Rr.Control.Laws.{seen}
use os_project.Rr.History.{reports}
use os_project.Rr.Turns.{
  Turns, all_over, ends, idle, runs, Choice, begin, keep, again, pass_on, use_unit,
}
use os_project.Rr.Order.{rr_main-FollowsTurns}

Arrived : ℕ → List Job → Option ℕ → Type 0
Arrived now js none = Unit
Arrived now js (some i) = (get_or js i no_job).arrival < now

-- As long as one runs, or not all are done, an end is to come.
Busy : List Job → Option ℕ → Type 0
Busy js none = done_count js < length js
Busy js (some i) = Unit

nothing_ends :
    (now : ℕ) (js : List Job) (running : Option ℕ) (last : ℕ)
    → Turns now js running last []
    → ¬ Busy js running
unfolding Busy
nothing_ends now js none last (all_over over) busy = absurd (omega (arith, over))
nothing_ends now js none last (idle undone quiet t) busy =
    nothing_ends (now + 1) js none last t busy
nothing_ends now js running last (runs i last' choice inside left t) busy =
    nothing_ends (now + 1) (use_unit js i) (some i) last' t tt

last_time-later :
    (now now' : ℕ) (js : List Job) (running : Option ℕ) (last : ℕ) (out : List (ℕ × ℕ))
    → Turns now' js running last out
    → Busy js running
    → last_time now out ≡ last_time now' out
last_time-later now now' js running last [] t busy =
    absurd (nothing_ends now' js running last t busy)
last_time-later now now' js running last (end ∷ out) t busy = refl

-- Who is chosen has arrived.
Choice-Arrived :
    (now : ℕ) (js : List Job) (running : Option ℕ) (last i last' : ℕ)
    → Arrived now js running
    → Choice now js running last i last'
    → (get_or js i no_job).arrival ≤ now
unfolding Arrived
Choice-Arrived now js none last i last' come (begin first) = ground (arith, first.waits)
Choice-Arrived now js (some i) last k last' come (keep more) = omega (arith, come)
Choice-Arrived now js (some i) last k last' come (again over left next same) =
    ground (arith, next.waits)
Choice-Arrived now js (some i) last k last' come (pass_on over left next other) =
    ground (arith, next.waits)

Arrived-next :
    (now : ℕ) (js : List Job) (i : ℕ)
    → (get_or js i no_job).arrival ≤ now
    → Arrived (now + 1) (use_unit js i) (some i)
unfolding Arrived
Arrived-next now js i come = omega (arith, come, arrival-after js i 1 i)

Turns-IsMakespan :
    (now : ℕ) (js : List Job) (running : Option ℕ) (last : ℕ) (out : List (ℕ × ℕ))
    → Turns now js running last out
    → Arrived now js running
    → IsMakespan now js (last_time now out)
unfolding Arrived Busy
Turns-IsMakespan now js none last out (all_over over) come = IsMakespan-over now js over
Turns-IsMakespan now js (some i) last (end ∷ out) (ends inside over t) come =
    Turns-IsMakespan now js none last out t tt
Turns-IsMakespan now js none last out (idle undone quiet t) come =
    rw (last_time-later now (now + 1) js none last out t undone) (
      IsMakespan-idle now js undone quiet (last_time (now + 1) out)
        (Turns-IsMakespan (now + 1) js none last out t tt))
Turns-IsMakespan now js running last out (runs i last' choice inside left t) come =
    let arrived = Choice-Arrived now js running last i last' come choice in
    rw (last_time-later now (now + 1) (use_unit js i) (some i) last' out t tt) (
      IsMakespan-after now js i 1 (last_time (now + 1) out) inside arrived left (
        Turns-IsMakespan (now + 1) (use_unit js i) (some i) last' out t
          (Arrived-next now js i arrived)))

last_time-reports :
    (js : List Job) (now : ℕ) (out : List (ℕ × ℕ))
    → last_time now (reports js out) ≡ last_time now out
last_time-reports js now [] = refl
last_time-reports js now ((i, time) ∷ out) = last_time-reports js time out

-- The time of the last end that is reported.
abbrev pub last_end : Trace → ℕ
last_end tr = last_time 0 (seen tr).1

module _ (kernel : Kernel) (stray : Process) where
  -- The last of the lines `Finish` stands at the makespan.
  abbrev pub EndsAtMakespan : List Process → Option State → Trace → Type 0
  EndsAtMakespan proc r tr' =
      (s : State) × (r ≡ some s) × IsMakespan 0 (map job_of proc) (last_end tr')

  -- Under the conditions under which RR follows turns, the last of its finish lines is printed at
  -- the makespan of the table's jobs.
  pub rr_main-EndsAtMakespan :
      (qsort : Qsort) (fuel : ℕ) (proc : List Process) (latest : ℕ)
      → IsReliable kernel
      → AllowsPolicies kernel
      → IsQsort qsort
      → IsWorkload proc
      → proc ≢ []
      → All (λ k. k.arrival ≤ latest) (map job_of (qsort rr_compare proc))
      → latest + total_left (map job_of (qsort rr_compare proc)) ≤ int_max
      → length (map job_of (qsort rr_compare proc))
          * (latest + total_left (map job_of (qsort rr_compare proc)))
        ≤ int_max
      → latest + total_left (map job_of (qsort rr_compare proc)) < fuel
      → Returns (rr_main kernel stray qsort fuel proc) [] (EndsAtMakespan proc)
  unfolding Arrived
  rr_main-EndsAtMakespan qsort fuel proc latest reliable allows sorting work some_proc early fits
        sum_fits enough =
      weaken
        (rr_main-FollowsTurns kernel stray qsort fuel proc latest reliable allows sorting work
          some_proc early fits sum_fits enough)
        λ r tr' (s, out, tr, ended, counted, in_time, turns, shown, average).
          let last : last_end tr' ≡ last_time 0 out =
            ap (λ t. last_time 0 t.1) shown ∙ last_time-reports js 0 out in
          (
            s,
            ended,
            IsMakespan-qsort sorting rr_compare proc (last_end tr')
                (rw last (Turns-IsMakespan 0 js none 0 out turns tt)),
          )
    where
      js : List Job
      js = map job_of (qsort rr_compare proc)
