-- ===== src/Sjf/Plan.antt =====
-- The specification of SJF: who runs when under the non-preemptive shortest-job-first policy.
use os_project.Prelude.{
  ℕ, ◌+◌, ◌<◌, ◌≡◌, ◌∙◌, Option, none, some, List, [], ◌∷◌, ℤ, get_or, set, length, arith,
}
use os_project.Process.{Process, Name, least_by}
use os_project.Process.Select.{FirstLeast, least_by-FirstLeast}
use os_project.Process.Jobs.{Job, no_job, Entry, Shows, Entry-is_idle, Shows-get, Shows-length}
use os_project.Process.Work.{done_count}
use os_project.Process.Waiting.{NoneWaits, Shortest}

abbrev pub finish : List Job → ℕ → List Job
finish js i = set js i (record (get_or js i no_job) { left = 0 })

-- `Plan now js out`: from `now` on the jobs `js` end in the order and at the times of `out`.
pub data Plan : ℕ → List Job → List (Name × ℕ) → Type 0 where
  all_over : {now : ℕ} {js : List Job} → done_count js ≡ length js → Plan now js []
  wait :
      {now : ℕ} {js : List Job} {out : List (Name × ℕ)}
      → done_count js < length js
      → NoneWaits now js
      → Plan (now + 1) js out
      → Plan now js out
  run :
      {now : ℕ} {js : List Job} {out : List (Name × ℕ)} (i : ℕ)
      → Shortest now js i
      → Plan (now + (get_or js i no_job).left) (finish js i) out
      → Plan now js (((get_or js i no_job).name, now + (get_or js i no_job).left) ∷ out)

abbrev pub exec_key : Process → ℤ
exec_key p = p.exec

-- What the selection loop chooses, in the words of the plan.
abbrev pub Chosen : ℕ → List Job → Option ℕ → Type 0
Chosen now js none = NoneWaits now js
Chosen now js (some i) = Shortest now js i

module _ (stray : Process) (now : ℕ) (ps : List Process) (js : List Job)
    (shown : Shows (now + 1) ps js) where
  entry : (i : ℕ) → i < length js → Entry (now + 1) (get_or ps i stray) (get_or js i no_job)
  entry i lt = Shows-get (now + 1) ps js i stray no_job shown lt

  same_length : length ps ≡ length js
  same_length = Shows-length (now + 1) ps js shown

  chosen : (r : Option ℕ) → FirstLeast exec_key stray ps (length ps) r → Chosen now js r
  chosen none h =
      λ i lt. ground (arith, h i (omega (arith, same_length)), Entry-is_idle (entry i lt))
  chosen (some i) h = record {
    inside = inside;
    waits = ground (arith, h.busy, Entry-is_idle (entry i inside));
    least = λ k lt w. ground (
      arith,
      h.least k (omega (arith, same_length)) (Entry-is_idle (entry k lt) ∙ ground arith),
      (entry k lt).exec_shown,
      (entry i inside).exec_shown,
    );
    first = λ k lt w.
        let lt' : k < length js = omega (arith, inside) in
        ground (
          arith,
          h.first k lt (Entry-is_idle (entry k lt') ∙ ground arith),
          (entry k lt').exec_shown,
          (entry i inside).exec_shown,
        );
  }
    where
      inside : i < length js
      inside = omega (arith, same_length, h.within)

  pub least_by-Chosen : Chosen now js (least_by exec_key stray ps)
  least_by-Chosen = chosen (least_by exec_key stray ps) (least_by-FirstLeast exec_key stray ps)
