-- ===== src/Fifo/Invariant.antt =====
-- What holds at the head of FIFO's loop, and what holds behind it.
use os_project.Prelude.{ℕ, ◌+◌, ◌-◌, ◌<◌, ◌≡◌, none, some, List, ◌∷◌, ◌++◌, All, length}
use os_project.Process.Workload.{IsOrdered}
use os_project.Process.{Name}
use os_project.Process.Jobs.{Job, Shows}
use os_project.Os.{Trace}
use os_project.Os.Loop.{Round, Progress}
use os_project.Fifo.{State}
use os_project.Fifo.Control.Laws.{endings}
use os_project.Fifo.Schedule.{finish_times, last_finish}

-- What holds of the state at the head of the loop: the jobs `done` are over, `j` is the next or
-- the running one, and `rest` has not run.
pub record Facts (s : State) (done rest : List Job) (j : Job) : Type 0 where
  pub shown : Shows s.time_cnt s.proc (done ++ j ∷ rest)
  pub spent : All (λ d. d.left ≡ 0) done
  pub pending : All (λ k. 0 < k.left) rest
  pub ordered : IsOrdered (j ∷ rest)
  pub counted : s.finish ≡ length done

-- `total` are the endings of the whole run and `limit` is the time of the last.
module _ (total : List (Name × ℕ)) (limit : ℕ) where
  pub record Vacant (s : State) (tr : Trace) (done rest : List Job) (j : Job) : Type 0 where
    pub facts : Facts s done rest j
    pub vacant : s.running ≡ none
    pub left : 0 < j.left
    pub foretold : endings tr ++ finish_times s.time_cnt (j ∷ rest) ≡ total
    pub limited : last_finish s.time_cnt (j ∷ rest) ≡ limit

  pub record Occupied (s : State) (tr : Trace) (done rest : List Job) (j : Job) : Type 0 where
    pub facts : Facts s done rest j
    pub running : s.running ≡ some (length done)
    pub come : j.arrival < s.time_cnt
    pub foretold :
        endings tr ++ (j.name, s.time_cnt + j.left) ∷ finish_times (s.time_cnt + j.left) rest
        ≡ total
    pub limited : last_finish (s.time_cnt + j.left) rest ≡ limit

  pub data Inv (s : State) (tr : Trace) : Type 0 where
    vacant_at : (done rest : List Job) (j : Job) → Vacant s tr done rest j → Inv s tr
    occupied_at : (done rest : List Job) (j : Job) → Occupied s tr done rest j → Inv s tr

  pub record Done (s : State) (tr : Trace) : Type 0 where
    pub reported : endings tr ≡ total
    pub all_done : s.finish ≡ length s.proc
    pub at_limit : s.time_cnt ≡ limit

  abbrev pub measure : State → ℕ
  measure s = limit - s.time_cnt

  -- What a round has to establish.
  abbrev pub Goal : State → Round State → Trace → Type 0
  Goal s = Progress Inv Done measure (measure s)
