-- ===== src/Sjf/Invariant.antt =====
-- What holds at the head of SJF's loop, and what holds behind it.
use os_project.Prelude.{
  ℕ, ◌+◌, ◌-◌, ◌≤◌, ◌<◌, ◌≡◌, none, some, List, ◌∷◌, ◌++◌, ◌==◌, if◌then◌else◌, get_or, length,
}
use os_project.Process.{Name}
use os_project.Process.Jobs.{Job, no_job, Shows}
use os_project.Process.Work.{Budget, done_count}
use os_project.Os.{Trace}
use os_project.Os.Loop.{Round, Progress}
use os_project.Sjf.{State}
use os_project.Sjf.Plan.{Plan, finish}
use os_project.Sjf.Steps.{seen}

module _ (start : List Job) (latest limit : ℕ) where
  -- What holds at the head of the loop: the table shows `js`, and the ends in `past` were reported.
  pub record Facts (s : State) (tr : Trace) (js : List Job) (past : List (Name × ℕ)) : Type 0 where
    pub shown : Shows s.ntime s.proc js
    pub budget : Budget latest limit s.ntime js
    pub reports : seen tr ≡ (s.ntime, past)

  pub record Vacant (s : State) (tr : Trace) (js : List Job) (past : List (Name × ℕ)) : Type 0 where
    pub facts : Facts s tr js past
    pub vacant : s.running ≡ none
    pub counted : s.finish_cnt ≡ done_count js
    pub undone : done_count js < length js
    pub plan : (out : List (Name × ℕ)) → Plan s.ntime js out → Plan 0 start (past ++ out)

  pub record Occupied (s : State) (tr : Trace) (js : List Job) (past : List (Name × ℕ)) (i : ℕ)
      : Type 0 where
    pub facts : Facts s tr js past
    pub running : s.running ≡ some i
    pub inside : i < length js
    pub counted : s.finish_cnt + (if (get_or js i no_job).left == 0 then 1 else 0) ≡ done_count js
    pub plan :
        (out : List (Name × ℕ))
        → Plan (s.ntime + (get_or js i no_job).left) (finish js i) out
        → Plan 0 start
            (past ++ ((get_or js i no_job).name, s.ntime + (get_or js i no_job).left) ∷ out)

  pub data Inv (s : State) (tr : Trace) : Type 0 where
    vacant_at : (js : List Job) (past : List (Name × ℕ)) → Vacant s tr js past → Inv s tr
    occupied_at :
        (js : List Job) (past : List (Name × ℕ)) (i : ℕ) → Occupied s tr js past i → Inv s tr

  -- All were reaped, and the reports are those of a plan.
  pub record Done (s : State) (tr : Trace) : Type 0 where
    pub all_done : s.finish_cnt ≡ length s.proc
    pub in_time : s.ntime ≤ limit
    pub out : List (Name × ℕ)
    pub reports : seen tr ≡ (s.ntime, out)
    pub plan : Plan 0 start out

  abbrev pub measure : State → ℕ
  measure s = limit - s.ntime

  -- What a round has to establish.
  abbrev pub Goal : State → Round State → Trace → Type 0
  Goal s = Progress Inv Done measure (measure s)
