-- ===== src/Rr/Unique.antt =====
-- RR.c: which parts of a run of `RR_main` the kernel decides.
use mathlib.Core.Path.{subst}
use os_project.Prelude.{
  ℕ, ◌+◌, ◌*◌, ◌%◌, ◌≤◌, ◌<◌, ◌≢◌, ◌⊎◌, inl, inr, ◌≡◌, refl, sym, ap, ◌∙◌, Option, none, some, List,
  [], ◌∷◌, All, map, length, get_or, arith,
}
use os_project.Process.{Process}
use os_project.Process.Jobs.{Job, no_job}
use os_project.Process.Work.{total_left, done_count, left-le-total_left, total_left-zero}
use os_project.Process.Workload.{IsWorkload, job_of}
use os_project.Process.Sorting.{Qsort, IsQsort}
use os_project.Process.Waiting.{NoneWaits}
use os_project.Os.{Kernel, IsReliable, AllowsPolicies, int_max}
use os_project.Os.Triple.{Returns}
use os_project.Rr.{rr_main}
use os_project.Rr.Control.{rr_compare}
use os_project.Rr.Control.Laws.{seen}
use os_project.Rr.Ring.{FirstWaiting, NextInRing}
use os_project.Rr.Turns.{
  Choice, begin, keep, again, pass_on, Turns, all_over, ends, idle, runs, use_unit,
}
use os_project.Rr.History.{reports}
use os_project.Rr.Order.{FollowsTurns, rr_main-FollowsTurns}

apart : (i k : ℕ) → (i ≡ k) ⊎ ((i < k) ⊎ (k < i))
apart i k = omega arith

FirstWaiting-unique :
    (now : ℕ) (js : List Job) (i k : ℕ) → FirstWaiting now js i → FirstWaiting now js k → i ≡ k
FirstWaiting-unique now js i k h h' = elim (apart i k) [
  | inl same ↦ same
  | inr (inl before) ↦ let wrong = h'.before i before in let waits = h.waits in absurd cc
  | inr (inr after) ↦ let wrong = h.before k after in let waits = h'.waits in absurd cc
]

NextInRing-unique :
    (now : ℕ) (js : List Job) (i k k' : ℕ) → NextInRing now js i k → NextInRing now js i k' → k ≡ k'
NextInRing-unique now js i k k' h h' = elim (apart h.distance h'.distance) [
  | inl same ↦ h.place ∙ ap (λ d. (i + d) % length js) same ∙ sym h'.place
  | inr (inl before) ↦ absurd (nearer h h' before)
  | inr (inr after) ↦ absurd (nearer h' h after)
]
  where
    nearer :
        {k k' : ℕ} (h : NextInRing now js i k) (h' : NextInRing now js i k')
        → h.distance < h'.distance
        → ⊥
    nearer h h' before =
        let passed = h'.passed h.distance h.positive before in
        let place = h.place in let waits = h.waits in cc

Choice-unique :
    (now : ℕ) (js : List Job) (running : Option ℕ) (last i l k m : ℕ)
    → Choice now js running last i l
    → Choice now js running last k m
    → (k ≡ i) × (m ≡ l)
Choice-unique now js running last i l k m (begin first) (begin first') =
    (FirstWaiting-unique now js k i first' first, refl)
Choice-unique now js running last i l k m (keep more) (keep more') = (refl, refl)
Choice-unique now js running last i l k m (keep more) (again over left next same) = absurd cc
Choice-unique now js running last i l k m (keep more) (pass_on over left next other) = absurd cc
Choice-unique now js running last i l k m (again over left next same) (keep more) = absurd cc
Choice-unique now js running last i l k m (pass_on over left next other) (keep more) = absurd cc
Choice-unique now js running last i l k m (again over left next same)
      (again over' left' next' same') =
    (same' ∙ sym same, refl)
Choice-unique now js (some r) last i l k m (again over left next same)
      (pass_on over' left' next' other) =
    absurd (other (NextInRing-unique now js r k i next' next ∙ same))
Choice-unique now js (some r) last i l k m (pass_on over left next other)
      (again over' left' next' same) =
    absurd (other (NextInRing-unique now js r i k next next' ∙ same))
Choice-unique now js (some r) last i l k m (pass_on over left next other)
      (pass_on over' left' next' other') =
    (NextInRing-unique now js r k i next' next, refl)

-- Who runs on is not done.
Choice-left :
    (now : ℕ) (js : List Job) (i last k l : ℕ)
    → Choice now js (some i) last k l
    → 0 < (get_or js k no_job).left
    → 0 < (get_or js i no_job).left
Choice-left now js i last k l (keep more) left = left
Choice-left now js i last k l (again over more next same) left = more
Choice-left now js i last k l (pass_on over more next other) left = more

Choice-waits :
    (now : ℕ) (js : List Job) (last k l : ℕ) → Choice now js none last k l → ¬ (NoneWaits now js)
Choice-waits now js last k l (begin first) quiet =
    let wrong = quiet k first.inside in let waits = first.waits in cc

undone :
    (js : List Job) (i : ℕ)
    → i < length js
    → 0 < (get_or js i no_job).left
    → ¬ (done_count js ≡ length js)
undone js i inside left over =
    absurd (omega (arith, left-le-total_left no_job js i inside, total_left-zero js over))

Turns-unique :
    (now : ℕ) (js : List Job) (running : Option ℕ) (last : ℕ) (out out' : List (ℕ × ℕ))
    → Turns now js running last out
    → Turns now js running last out'
    → out ≡ out'
Turns-unique now js none last [] [] (all_over over) (all_over over') = refl
Turns-unique now js none last [] out' (all_over over) (idle more quiet t) =
    absurd (omega (arith, over))
Turns-unique now js none last [] out' (all_over over) (runs i l choice inside left t) =
    absurd (undone js i inside left over)
Turns-unique now js none last out [] (idle more quiet t) (all_over over) =
    absurd (omega (arith, over))
Turns-unique now js none last out [] (runs i l choice inside left t) (all_over over) =
    absurd (undone js i inside left over)
Turns-unique now js (some i) last (end ∷ out) (end' ∷ out') (ends inside over t)
      (ends inside' over' t') =
    ap (λ l. (i, now) ∷ l) (Turns-unique now js none last out out' t t')
Turns-unique now js (some i) last (end ∷ out) out' (ends inside over t)
      (runs k l choice inside' left t') =
    absurd (omega (arith, over, Choice-left now js i last k l choice left))
Turns-unique now js (some i) last out (end ∷ out') (runs k l choice inside' left t')
      (ends inside over t) =
    absurd (omega (arith, over, Choice-left now js i last k l choice left))
Turns-unique now js none last out out' (idle more quiet t) (idle more' quiet' t') =
    Turns-unique (now + 1) js none last out out' t t'
Turns-unique now js none last out out' (idle more quiet t) (runs i l choice inside left t') =
    absurd (Choice-waits now js last i l choice quiet)
Turns-unique now js none last out out' (runs i l choice inside left t') (idle more quiet t) =
    absurd (Choice-waits now js last i l choice quiet)
Turns-unique now js running last out out' (runs i l choice inside left t)
      (runs k m choice' inside' left' t') =
    let (who, since) = Choice-unique now js running last i l k m choice choice' in
    let moved : Turns (now + 1) (use_unit js i) (some i) m out' =
      subst (λ k. Turns (now + 1) (use_unit js k) (some k) m out') who t' in
    let same : Turns (now + 1) (use_unit js i) (some i) l out' =
      subst (λ m. Turns (now + 1) (use_unit js i) (some i) m out') since moved in
    Turns-unique (now + 1) (use_unit js i) (some i) l out out' t same

-- Under two kernels none of whose calls fails, and the other conditions under which RR follows
-- turns, RR prints the finish lines of the same processes in the same order and with the same
-- times.
pub rr_main-seen :
    (kernel kernel' : Kernel) (stray : Process) (qsort : Qsort) (fuel : ℕ) (proc : List Process)
    (latest : ℕ)
    → IsReliable kernel
    → IsReliable kernel'
    → AllowsPolicies kernel
    → AllowsPolicies kernel'
    → IsQsort qsort
    → IsWorkload proc
    → proc ≢ []
    → All (λ k. k.arrival ≤ latest) (map job_of (qsort rr_compare proc))
    → latest + total_left (map job_of (qsort rr_compare proc)) ≤ int_max
    → length (map job_of (qsort rr_compare proc))
        * (latest + total_left (map job_of (qsort rr_compare proc)))
      ≤ int_max
    → latest + total_left (map job_of (qsort rr_compare proc)) < fuel
    → (seen (rr_main kernel stray qsort fuel proc []).1).1
      ≡ (seen (rr_main kernel' stray qsort fuel proc []).1).1
rr_main-seen kernel kernel' stray qsort fuel proc latest reliable reliable' allows allows' sorting
      work some_proc early fits sum_fits enough =
    lines kernel reliable allows
    ∙ reported kernel kernel' reliable reliable' allows allows'
    ∙ sym (lines kernel' reliable' allows')
  where
    js : List Job
    js = map job_of (qsort rr_compare proc)

    follows :
        (kernel : Kernel)
        → IsReliable kernel
        → AllowsPolicies kernel
        → Returns
            (rr_main kernel stray qsort fuel proc)
            []
            (FollowsTurns kernel stray js (latest + total_left js))
    follows kernel reliable allows =
        rr_main-FollowsTurns kernel stray qsort fuel proc latest reliable allows sorting work
          some_proc early fits sum_fits enough

    lines :
        (kernel : Kernel) (reliable : IsReliable kernel) (allows : AllowsPolicies kernel)
        → (seen (rr_main kernel stray qsort fuel proc []).1).1
          ≡ reports js (follows kernel reliable allows).post.1
    lines kernel reliable allows =
        ap (λ o. (seen o.1).1) (follows kernel reliable allows).run
        ∙ ap (λ v. v.1) (follows kernel reliable allows).post.7

    reported :
        (kernel kernel' : Kernel) (reliable : IsReliable kernel) (reliable' : IsReliable kernel')
        (allows : AllowsPolicies kernel) (allows' : AllowsPolicies kernel')
        → reports js (follows kernel reliable allows).post.1
          ≡ reports js (follows kernel' reliable' allows').post.1
    reported kernel kernel' reliable reliable' allows allows' = ap (reports js) (
        Turns-unique 0 js none 0 (follows kernel reliable allows).post.1
          (follows kernel' reliable' allows').post.1 (follows kernel reliable allows).post.6
          (follows kernel' reliable' allows').post.6)
