-- ===== src/Fifo/Schedule.antt =====
-- The specification of FIFO: the first-come-first-served schedule of the jobs.
use os_project.Prelude.{ℕ, ◌+◌, ◌≤◌, max, List, [], ◌∷◌, arith}
use os_project.Process.{Name}
use os_project.Process.Jobs.{Job}

-- The specification: each job starts when it has arrived and the one before it is done.
abbrev pub completion : ℕ → Job → ℕ
completion now j = max now j.arrival + j.left

abbrev pub finish_times : ℕ → List Job → List (Name × ℕ)
finish_times now [] = []
finish_times now (j ∷ js) = (j.name, completion now j) ∷ finish_times (completion now j) js

abbrev pub last_finish : ℕ → List Job → ℕ
last_finish now [] = now
last_finish now (j ∷ js) = last_finish (completion now j) js

pub le-last_finish : (now : ℕ) (js : List Job) → now ≤ last_finish now js
le-last_finish now [] = omega arith
le-last_finish now (j ∷ js) = omega (arith, le-last_finish (completion now j) js)
