-- ===== src/Process/Makespan/Sorted.antt =====
-- What a sorted table's jobs have in common with the table's.
use mathlib.Core.Logic.{∥∥₁_elim}
use mathlib.Core.Logic.Or
use mathlib.Core.List.Perm
use mathlib.Core.List.{Perm, Permᴰ, Mem, not-mem-nil, mem-cons, mem-cons_self, mem-cons_of_mem}
use native.Mathlib.Bridge.{le_prop}
use native.Mathlib.Nat.{ℕ_set}
use os_project.Prelude.{ℕ, suc, ◌≤◌, ◌≡◌, ℤ, refl, ap, ◌∙◌, List, [], ◌∷◌, All, map, length}
use os_project.Process.{Process}
use os_project.Process.Jobs.{Job}
use os_project.Process.Work.{total_left}
use os_project.Process.Workload.{job_of}
use os_project.Process.Sorting.{Qsort, IsQsort}
use os_project.Process.Makespan.Order.{total_left-perm}

abbrev ArrivesBy : ℕ → Job → Type 0
ArrivesBy latest j = j.arrival ≤ latest

All-Mem :
    (latest : ℕ) (js : List Job)
    → All (ArrivesBy latest) js
    → (j : Job) → Mem j js
    → j.arrival ≤ latest
All-Mem latest [] all j m = absurd (not-mem-nil m)
All-Mem latest (i ∷ js) all j m =
    Or.elim le_prop (mem-cons.0 m) (λ same. rw same all.0) (All-Mem latest js all.1 j)

Mem-All :
    (latest : ℕ) (js : List Job)
    → ((j : Job) → Mem j js → j.arrival ≤ latest)
    → All (ArrivesBy latest) js
Mem-All latest [] h = tt
Mem-All latest (j ∷ js) h =
    (h j mem-cons_self, Mem-All latest js (λ i m. h i (mem-cons_of_mem j m)))

lengthᴰ : {js js' : List Job} → Permᴰ js js' → length js ≡ length js'
lengthᴰ Permᴰ.nil = refl
lengthᴰ (Permᴰ.cons e p) = ap suc (lengthᴰ p)
lengthᴰ (Permᴰ.swap e e') = refl
lengthᴰ (Permᴰ.trans p q) = lengthᴰ p ∙ lengthᴰ q

module _ {qsort : Qsort} (q : IsQsort qsort) (cmp : Process → Process → ℤ)
    (proc : List Process) where
  jobs-perm : Perm (map job_of (qsort cmp proc)) (map job_of proc)
  jobs-perm = Perm.map job_of (q.permutes cmp proc)

  pub sorted-ArrivesBy :
      (latest : ℕ)
      → All (λ j. j.arrival ≤ latest) (map job_of proc)
      → All (λ j. j.arrival ≤ latest) (map job_of (qsort cmp proc))
  sorted-ArrivesBy latest all =
      Mem-All latest (map job_of (qsort cmp proc))
        λ j m. All-Mem latest (map job_of proc) all j (Perm.subset jobs-perm j m)

  pub sorted-total_left : total_left (map job_of (qsort cmp proc)) ≡ total_left (map job_of proc)
  sorted-total_left = total_left-perm (map job_of (qsort cmp proc)) (map job_of proc) jobs-perm

  pub sorted-length : length (map job_of (qsort cmp proc)) ≡ length (map job_of proc)
  sorted-length = ∥∥₁_elim jobs-perm (ℕ_set _ _) lengthᴰ
