-- ===== src/Psjf/Invariant.antt =====
-- What holds at the head of PSJF's loop, and what holds behind it.
use os_project.Prelude.{ℕ, ◌-◌, ◌≤◌, ◌≡◌, Option, List, ◌++◌, ℤ, length}
use os_project.Process.{Process}
use os_project.Process.Jobs.{Job, Pointwise}
use os_project.Process.Work.{Budget, done_count}
use os_project.Os.{Trace}
use os_project.Os.Loop.{Round, Progress}
use os_project.Psjf.{State}
use os_project.Psjf.Waiting.{Shows}
use os_project.Psjf.Steps.{seen, Calm}
use os_project.Psjf.Timeline.{Timeline, HasPid, Ran}

module _ (start : List Job) (latest limit : ℕ) (stray : Process) where
  -- What holds at the head of the loop: the table shows `js`, the units of time went to the jobs of
  -- `ran`, and so the trace shows it in the pids of `pids`.
  pub record Facts (s : State) (tr : Trace) (js : List Job) (ran : List (Option ℕ)) (pids : List ℤ)
      : Type 0 where
    pub shown : Shows s.time s.proc js
    pub budget : Budget latest limit s.time js
    pub counted : s.finished_process ≡ done_count js
    pub calm : Calm (s.pre_running, pids) tr
    pub units : length pids ≡ s.time
    pub history : Pointwise (Ran stray s.time s.proc js) ran pids
    pub plan : (out : List (Option ℕ)) → Timeline s.time js out → Timeline 0 start (ran ++ out)

  pub data Inv (s : State) (tr : Trace) : Type 0 where
    at_head :
        (js : List Job) (ran : List (Option ℕ)) (pids : List ℤ) → Facts s tr js ran pids → Inv s tr

  -- All jobs are done, in the units of time of a timeline, which shows in the trace.
  pub record Done (s : State) (tr : Trace) : Type 0 where
    pub all_done : s.finished_process ≡ length s.proc
    pub in_time : s.time ≤ limit
    pub ran : List (Option ℕ)
    pub units : length (seen tr).1 ≡ s.time
    pub plan : Timeline 0 start ran
    pub history : Pointwise (HasPid stray s.proc) ran (seen tr).1

  abbrev pub measure : State → ℕ
  measure s = limit - s.time

  -- What a round has to establish.
  abbrev pub Goal : State → Round State → Trace → Type 0
  Goal s = Progress Inv Done measure (measure s)
