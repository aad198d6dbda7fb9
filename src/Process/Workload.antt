-- ===== src/Process/Workload.antt =====
-- The tables that the schedulers are meant for: each process is ready at a time from 0 to the last
-- `int`, and has something to run.
use mathlib.Core.Logic.Or
use mathlib.Core.List.Perm
use mathlib.Core.List.{Mem, not-mem-nil, mem-cons, mem-cons_self, mem-cons_of_mem}
use os_project.Prelude.{
  ◌≤◌, ◌<◌, ◌≢◌, ◌≡◌, refl, sym, Bool, true, not, ◌&&◌, List, [], ◌∷◌, map, All, ℤ, pos, pos_part,
  ltb_ℤ, arith,
}
use os_project.Os.{int_max}
use os_project.Process.{Process, unstarted}
use os_project.Process.Jobs.{Job, Shows}
use os_project.Process.Sorting.{Qsort, IsQsort, IsAtMost, IsSortedBy}

abbrev pub is_job : Process → Bool
is_job p =
    (not (ltb_ℤ p.ready (pos 0)) && not (ltb_ℤ (pos int_max) p.ready)) && ltb_ℤ (pos 0) p.exec

abbrev pub IsJob : Process → Type 0
IsJob p = is_job p ≡ true

abbrev pub IsWorkload : List Process → Type 0
IsWorkload ps = (p : Process) → Mem p ps → is_job p ≡ true

abbrev pub job_of : Process → Job
job_of p = record { name = p.name; arrival = pos_part p.ready; left = pos_part p.exec }

pub IsWorkload-All : (ps : List Process) → IsWorkload ps → All IsJob ps
IsWorkload-All [] w = tt
IsWorkload-All (p ∷ ps) w =
    (w p mem-cons_self, IsWorkload-All ps (λ q m. w q (mem-cons_of_mem p m)))

pub All-IsWorkload : (ps : List Process) → All IsJob ps → IsWorkload ps
All-IsWorkload [] a p m = absurd (not-mem-nil m)
All-IsWorkload (q ∷ ps) a p m =
    Or.elim (hlevel) (mem-cons.0 m) (λ e. rw e a.0) (All-IsWorkload ps a.1 p)

-- Sorting keeps a workload one.
pub qsort-All :
    {qsort : Qsort} (q : IsQsort qsort) (cmp : Process → Process → ℤ) (ps : List Process)
    → IsWorkload ps
    → All IsJob (qsort cmp ps)
qsort-All {qsort} q cmp ps w =
    IsWorkload-All (qsort cmp ps) (λ p m. w p (Perm.subset (q.permutes cmp ps) p m))

pub unstarted-Shows :
    (ps : List Process) → All IsJob ps → Shows 0 (map unstarted ps) (map job_of ps)
unstarted-Shows [] w = tt
unstarted-Shows (p ∷ ps) w = (ground (arith, w.0), unstarted-Shows ps w.1)

pub jobs_left : (ps : List Process) → All IsJob ps → All (λ j. 0 < j.left) (map job_of ps)
jobs_left [] w = tt
jobs_left (p ∷ ps) w = (ground (arith, w.0), jobs_left ps w.1)

map-ne_nil : (ps : List Process) → map job_of ps ≡ [] → ps ≡ []
map-ne_nil [] e = refl
map-ne_nil (p ∷ ps) e = cc

-- Sorting loses no process.
pub qsort-jobs_ne :
    {qsort : Qsort} (q : IsQsort qsort) (cmp : Process → Process → ℤ) (ps : List Process)
    → ps ≢ []
    → map job_of (qsort cmp ps) ≢ []
qsort-jobs_ne {qsort} q cmp ps some_proc e =
    some_proc (sym (Perm.nil-eq (rw (map-ne_nil (qsort cmp ps) e) at (q.permutes cmp ps))))

-- Each job arrives no later than those behind it.
abbrev pub IsOrdered : List Job → Type 0
IsOrdered [] = Unit
IsOrdered (j ∷ js) = All (λ k. j.arrival ≤ k.arrival) js × IsOrdered js

module _ (cmp : Process → Process → ℤ)
    (reads : (p q : Process)
      → IsAtMost cmp p q
      → IsJob p
      → IsJob q
      → (job_of p).arrival ≤ (job_of q).arrival) where
  behind-first :
      (p : Process) (ps : List Process)
      → All (IsAtMost cmp p) ps
      → IsJob p
      → All IsJob ps
      → All (λ k. (job_of p).arrival ≤ k.arrival) (map job_of ps)
  behind-first p [] h j w = tt
  behind-first p (q ∷ ps) h j w = (reads p q h.0 j w.0, behind-first p ps h.1 j w.1)

  -- A table that is sorted by the times of arrival shows ordered jobs.
  pub sorted-IsOrdered :
      (ps : List Process) → IsSortedBy cmp ps → All IsJob ps → IsOrdered (map job_of ps)
  sorted-IsOrdered [] h w = tt
  sorted-IsOrdered (p ∷ ps) h w = (behind-first p ps h.0 w.0 w.1, sorted-IsOrdered ps h.1 w.1)
