-- ===== src/Sjf/Unique.antt =====
-- SJF.c: which parts of a run of `SJF` the kernel decides.
use mathlib.Core.Path.{subst}
use os_project.Prelude.{
  sym, ℕ, ◌+◌, ◌<◌, ◌≤◌, ◌≢◌, ◌≡◌, refl, ap, ◌∙◌, List, [], ◌∷◌, All, map, get_or, arith,
}
use os_project.Process.{Process, Name}
use os_project.Process.Jobs.{Job, no_job}
use os_project.Process.Work.{total_left}
use os_project.Process.Waiting.{Shortest-unique, Shortest-NoneWaits, Shortest-undone}
use os_project.Process.Workload.{IsWorkload, job_of}
use os_project.Process.Sorting.{Qsort, IsQsort}
use os_project.Os.{Kernel, IsReliable, int_max}
use os_project.Os.Triple.{Exits}
use os_project.Sjf.{cmp, sjf}
use os_project.Sjf.Steps.{seen}
use os_project.Sjf.Plan.{Plan, all_over, wait, run, finish}
use os_project.Sjf.Order.{FollowsPlan, sjf-FollowsPlan}

-- What a job adds to the reports.
abbrev line : ℕ → List Job → ℕ → Name × ℕ
line now js i = ((get_or js i no_job).name, now + (get_or js i no_job).left)

Plan-unique :
    (now : ℕ) (js : List Job) (out out' : List (Name × ℕ))
    → Plan now js out
    → Plan now js out'
    → out ≡ out'
Plan-unique now js [] [] (all_over over) (all_over over') = refl
Plan-unique now js [] out' (all_over over) (wait undone idle t) = absurd (omega (arith, over))
Plan-unique now js [] (end' ∷ out') (all_over over) (run i short t) =
    absurd (Shortest-undone now js i short over)
Plan-unique now js out [] (wait undone idle t) (all_over over) = absurd (omega (arith, over))
Plan-unique now js (end ∷ out) [] (run i short t) (all_over over) =
    absurd (Shortest-undone now js i short over)
Plan-unique now js out out' (wait undone idle t) (wait undone' idle' t') =
    Plan-unique (now + 1) js out out' t t'
Plan-unique now js out (end' ∷ out') (wait undone idle t) (run k short' t') =
    absurd (Shortest-NoneWaits now js k short' idle)
Plan-unique now js (end ∷ out) out' (run i short t) (wait undone' idle' t') =
    absurd (Shortest-NoneWaits now js i short idle')
Plan-unique now js (end ∷ out) (end' ∷ out') (run i short t) (run k short' t') =
    let same : k ≡ i = Shortest-unique now js k short' i short in
    let rest : Plan (now + (get_or js i no_job).left) (finish js i) out' =
      subst (λ k. Plan (now + (get_or js k no_job).left) (finish js k) out') same t' in
    ap (λ l. line now js i ∷ l)
      (Plan-unique (now + (get_or js i no_job).left) (finish js i) out out' t rest)
    ∙ ap (λ k. line now js k ∷ out') (sym same)

-- Under two kernels whose fork and sched_setaffinity do not fail, and the other conditions under
-- which SJF follows a plan, SJF prints the lines that report an end for the same processes in the
-- same order at the same times.
pub sjf-seen :
    (kernel kernel' : Kernel) (stray : Process) (qsort : Qsort) (fuel : ℕ) (proc : List Process)
    (latest : ℕ)
    → IsReliable kernel
    → IsReliable kernel'
    → IsQsort qsort
    → IsWorkload proc
    → proc ≢ []
    → All (λ k. k.arrival ≤ latest) (map job_of (qsort cmp proc))
    → latest + total_left (map job_of (qsort cmp proc)) ≤ int_max
    → latest + total_left (map job_of (qsort cmp proc)) < fuel
    → (seen (sjf kernel stray qsort fuel proc []).1).1
      ≡ (seen (sjf kernel' stray qsort fuel proc []).1).1
sjf-seen kernel kernel' stray qsort fuel proc latest reliable reliable' sorting work some_proc early
      fits enough =
    let r =
      sjf-FollowsPlan kernel stray qsort fuel proc latest reliable sorting work some_proc early fits
        enough in
    let r' =
      sjf-FollowsPlan kernel' stray qsort fuel proc latest reliable' sorting work some_proc early
        fits enough in
    ap (λ o. (seen o.1).1) r.run ∙ reports r r' ∙ ap (λ o. (seen o.1).1) (sym r'.run)
  where
    js : List Job
    js = map job_of (qsort cmp proc)

    reports :
        (r : Exits
          (sjf kernel stray qsort fuel proc)
          []
          0
          (FollowsPlan kernel stray js (latest + total_left js)))
        (r' : Exits
          (sjf kernel' stray qsort fuel proc)
          []
          0
          (FollowsPlan kernel' stray js (latest + total_left js)))
        → (seen r.after).1 ≡ (seen r'.after).1
    reports r r' = r.post.2 ∙ Plan-unique 0 js r.post.0 r'.post.0 r.post.1 r'.post.1 ∙ sym r'.post.2
