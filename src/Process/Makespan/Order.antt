-- ===== src/Process/Makespan/Order.antt =====
-- The order of the jobs does not matter for the makespan.
use mathlib.Core.Logic.{∥∥₁_elim}
use mathlib.Core.Logic.Or
use mathlib.Core.List.Perm
use mathlib.Core.List.{Perm, Permᴰ, Mem, not-mem-nil, mem-cons, mem-cons_self, mem-cons_of_mem}
use native.Mathlib.Bridge.{le_prop}
use native.Mathlib.Nat.{ℕ_set}
use os_project.Prelude.{
  ℕ, zero, suc, ◌+◌, ◌≤◌, ◌<◌, ◌≡◌, ℤ, refl, sym, ap, ◌∙◌, List, [], ◌∷◌, ltb, if◌then◌else◌, map,
  get_or, length, arith,
}
use os_project.Process.{Process}
use os_project.Process.Jobs.{Job, no_job}
use os_project.Process.Work.{total_left}
use os_project.Process.Workload.{job_of}
use os_project.Process.Sorting.{Qsort, IsQsort}
use os_project.Process.Makespan.{late_work, late-all, IsBound, IsMakespan, IsMakespan-same}

abbrev late_part : ℕ → Job → ℕ
late_part a j = if ltb j.arrival a then 0 else j.left

late_workᴰ : (a : ℕ) {js js' : List Job} → Permᴰ js js' → late_work a js ≡ late_work a js'
unfolding late_work
late_workᴰ a Permᴰ.nil = refl
late_workᴰ a (Permᴰ.cons e p) = omega (arith, ap (late_part a) e, late_workᴰ a p)
late_workᴰ a (Permᴰ.swap e e') = omega (arith, ap (late_part a) e, ap (late_part a) e')
late_workᴰ a (Permᴰ.trans p q) = late_workᴰ a p ∙ late_workᴰ a q

late_work-perm : (a : ℕ) (js js' : List Job) → Perm js js' → late_work a js ≡ late_work a js'
late_work-perm a js js' p = ∥∥₁_elim p (ℕ_set (late_work a js) (late_work a js')) (late_workᴰ a)

pub total_left-perm : (js js' : List Job) → Perm js js' → total_left js ≡ total_left js'
total_left-perm js js' p =
    sym (late-all 0 js (λ k lt left. omega arith))
    ∙ late_work-perm 0 js js' p
    ∙ late-all 0 js' (λ k lt left. omega arith)

get_or-Mem : (js : List Job) (k : ℕ) → k < length js → Mem (get_or js k no_job) js
get_or-Mem [] k lt = elim lt [ ]
get_or-Mem (j ∷ js) zero lt = mem-cons_self
get_or-Mem (j ∷ js) (suc k) lt = mem-cons_of_mem j (get_or-Mem js k (omega arith))

-- What holds of the jobs at all places holds of all members.
Mem-late :
    (f : ℕ → ℕ) (e : ℕ) (js : List Job)
    → ((k : ℕ)
        → k < length js
        → 0 < (get_or js k no_job).left
        → (get_or js k no_job).arrival + f (get_or js k no_job).arrival ≤ e)
    → (j : Job) → Mem j js
    → 0 < j.left
    → j.arrival + f j.arrival ≤ e
Mem-late f e [] h j m left = absurd (not-mem-nil m)
Mem-late f e (i ∷ js) h j m left =
    Or.elim le_prop (mem-cons.0 m) (λ same. head same)
      (λ m'. Mem-late f e js (λ k lt. h (suc k) (omega arith)) j m' left)
  where
    head : j ≡ i → j.arrival + f j.arrival ≤ e
    head same = rw same (h 0 (omega arith) (rw same at left))

IsBound-perm :
    (now : ℕ) (js js' : List Job) (e : ℕ) → Perm js js' → IsBound now js e → IsBound now js' e
IsBound-perm now js js' e p b = record {
  all_work = omega (arith, b.all_work, total_left-perm js js' p);
  late = λ k lt left.
      Mem-late (λ a. late_work a js') e js
        (λ i in_js i_left.
          omega
            (arith, b.late i in_js i_left, late_work-perm (get_or js i no_job).arrival js js' p))
        (get_or js' k no_job)
        (Perm.subset (Perm.symm p) (get_or js' k no_job) (get_or-Mem js' k lt)) left;
}

pub IsMakespan-perm :
    (now : ℕ) (js js' : List Job) (e : ℕ) → Perm js js' → IsMakespan now js' e → IsMakespan now js e
IsMakespan-perm now js js' e p =
    IsMakespan-same now now js js' e
      λ b. (IsBound-perm now js js' b p, IsBound-perm now js' js b (Perm.symm p))

-- A sorted table has the makespan of the table.
pub IsMakespan-qsort :
    {qsort : Qsort} (q : IsQsort qsort) (cmp : Process → Process → ℤ) (proc : List Process) (e : ℕ)
    → IsMakespan 0 (map job_of (qsort cmp proc)) e
    → IsMakespan 0 (map job_of proc) e
IsMakespan-qsort {qsort} q cmp proc e =
    IsMakespan-perm 0 (map job_of proc) (map job_of (qsort cmp proc)) e
      (Perm.map job_of (Perm.symm (q.permutes cmp proc)))
