-- ===== src/Rr/Invariant.antt =====
-- What holds at the head of RR's loop, and what holds behind it.
use os_project.Prelude.{
  ℕ, ◌+◌, ◌-◌, ◌*◌, ◌≤◌, ◌<◌, ◌≡◌, none, some, List, ◌++◌, ◌==◌, if◌then◌else◌, pos, get_or, length,
}
use os_project.Process.Jobs.{Job, no_job, Shows}
use os_project.Process.Work.{Budget, done_count}
use os_project.Os.{Trace}
use os_project.Os.Loop.{Round, Progress}
use os_project.Rr.{State}
use os_project.Rr.Turns.{Turns}
use os_project.Rr.History.{reports, turnaround, Keeps}
use os_project.Rr.Control.Laws.{seen}

module _ (start : List Job) (latest limit : ℕ) where
  -- What holds at the head of the loop: the table shows `js`, and the ends in `past` were reported.
  pub record Facts (s : State) (tr : Trace) (js : List Job) (past : List (ℕ × ℕ)) : Type 0 where
    pub shown : Shows s.time_now s.proc js
    pub budget : Budget latest limit s.time_now js
    pub keeps : Keeps start js
    pub reported : seen tr ≡ (s.time_now, reports start past)
    pub waited : s.wait ≡ pos (turnaround start past)
    pub bounded : turnaround start past ≤ s.finish_cnt * limit
    pub plan :
        (out : List (ℕ × ℕ))
        → Turns s.time_now js s.running s.time_last out
        → Turns 0 start none 0 (past ++ out)

  pub record Vacant (s : State) (tr : Trace) (js : List Job) (past : List (ℕ × ℕ)) : Type 0 where
    pub facts : Facts s tr js past
    pub vacant : s.running ≡ none
    pub counted : s.finish_cnt ≡ done_count js
    pub undone : done_count js < length js

  pub record Occupied (s : State) (tr : Trace) (js : List Job) (past : List (ℕ × ℕ)) (i : ℕ)
      : Type 0 where
    pub facts : Facts s tr js past
    pub running : s.running ≡ some i
    pub inside : i < length js
    pub come : (get_or js i no_job).arrival < s.time_now
    pub counted : s.finish_cnt + (if (get_or js i no_job).left == 0 then 1 else 0) ≡ done_count js

  pub data Inv (s : State) (tr : Trace) : Type 0 where
    vacant_at : (js : List Job) (past : List (ℕ × ℕ)) → Vacant s tr js past → Inv s tr
    occupied_at : (js : List Job) (past : List (ℕ × ℕ)) (i : ℕ) → Occupied s tr js past i → Inv s tr

  -- All were reaped, the lines `Finish` are those of the turns, and `wait` is their sum.
  pub record Done (s : State) (tr : Trace) : Type 0 where
    pub all_done : s.finish_cnt ≡ length s.proc
    pub in_time : s.time_now ≤ limit
    pub out : List (ℕ × ℕ)
    pub turns : Turns 0 start none 0 out
    pub reported : seen tr ≡ (s.time_now, reports start out)
    pub waited : s.wait ≡ pos (turnaround start out)

  abbrev pub measure : State → ℕ
  measure s = limit - s.time_now

  -- What a round has to establish.
  abbrev pub Goal : State → Round State → Trace → Type 0
  Goal s = Progress Inv Done measure (measure s)
