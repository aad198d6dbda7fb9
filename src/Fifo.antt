-- ===== src/Fifo.antt =====
-- FIFO.c: `next_proc` and the scheduler's loop.
pub mod Control
pub mod Makespan
pub mod Refused
pub mod Lost
pub mod Awake
mod Tests
mod Steps
mod Choice
pub mod Schedule
mod Invariant
mod Advance
mod Rounds
pub mod Order
pub mod Stray
mod Idle
use os_project.Prelude.{
  ℕ, suc, ◌+◌, Option, none, some, List, [], ◌∷◌, ◌==◌, Bool, true, false, ℤ, pos, minus_one, eq_ℤ,
  if◌then◌else◌, length, set, map,
}
use Control.{parent_cpu, time_unit, compare, proc_assign_cpu, proc_wakeup, proc_exec, proc_block}
use os_project.Process.{Process, Name, proc_at, same_index, unstarted, least_by}
use os_project.Process.Sorting.{Qsort}
use os_project.Os.{
  Kernel, M, pure, ◌>>=◌, ◌>>◌, say, for_each, getpid, waitpid, increment, decrement, table_row,
  parent_assigned, context_switch, ended,
}
use os_project.Os.Loop.{Round, again, break, forever}

-- The table and the globals `running` (an index), `finish` and `time_cnt`.
pub record State : Type 0 where
  pub proc : List Process
  pub running : Option ℕ
  pub finish : ℕ
  pub time_cnt : ℕ

module _ (kernel : Kernel) (stray : Process) where
  -- The body of `if (proc[i].ready == time_cnt)`, and what is left of `proc[i]` without it.
  pub arrive : ℕ → Process → M Process
  arrive time_cnt p =
      if eq_ℤ p.ready (pos time_cnt)
      then (do
        pid ← proc_exec kernel p time_cnt
        _ ← proc_block kernel pid
        pure (record p { pid = pid }))
      else pure p

  pub arrivals : ℕ → List Process → M (List Process)
  arrivals time_cnt proc = for_each (arrive time_cnt) proc

  pub next_proc : State → Option ℕ
  next_proc s = elim s.running [ some i ↦ some i | none ↦ least_by (λ p. p.ready) stray s.proc ]

  -- `if (next != -1) if (running != next) ...`, the new value of `running`.
  pub switch : State → Option ℕ → M (Option ℕ)
  switch s none = pure s.running
  switch s (some next) = if same_index s.running (some next) then pure s.running else (do
    say context_switch
    _ ← proc_wakeup kernel (proc_at stray s.proc (some next)).pid
    _ ← proc_block kernel (proc_at stray s.proc s.running).pid
    pure (some next))

  -- `if (running != -1) proc[running].exec--;`
  pub run_down : Option ℕ → List Process → M (List Process)
  run_down none proc = pure proc
  run_down (some i) proc = do
    left ← decrement (proc_at stray proc (some i)).exec
    pure (set proc i (record (proc_at stray proc (some i)) { exec = left }))

  -- A unit of time passes, and the running process has one unit less to go.
  pub pass : State → Option ℕ → M (Round State)
  unfolding run_down
  pass s running = do
    time_unit
    time_cnt ← increment s.time_cnt
    proc ← run_down running s.proc
    pure (again (record s { proc = proc; running = running; time_cnt = time_cnt }))

  -- The body of the loop behind the test for the end of the running process.
  pub advance : State → M (Round State)
  advance s = do
    proc ← arrivals s.time_cnt s.proc
    let arrived = record s { proc = proc }
    running ← switch arrived (next_proc arrived)
    pass arrived running

  pub is_over : State → Bool
  is_over s = elim s.running [
    | none ↦ false
    | some i ↦ eq_ℤ (proc_at stray s.proc (some i)).exec (pos 0)
  ]

  -- The body of `if (running != -1 && proc[running].exec == 0)`, with what follows it.
  pub reap : State → M (Round State)
  reap s = do
    waitpid (proc_at stray s.proc s.running).pid
    say (ended (proc_at stray s.proc s.running).name s.time_cnt)
    let reaped = record s { running = none; finish = s.finish + 1 }
    if s.finish + 1 == length s.proc then pure (break reaped) else advance reaped

  -- The body of `while (1)`.
  pub round : State → M (Round State)
  round s = if is_over s then reap s else advance s

  pub print_table : List Process → M Unit
  print_table [] = pure tt
  print_table (p ∷ ps) = say (table_row p.name p.ready p.exec) >> print_table ps

  -- The calls by which the scheduler prepares itself.
  pub prepare : M Unit
  prepare = do
    me ← getpid kernel
    _ ← proc_assign_cpu kernel me parent_cpu
    me' ← getpid kernel
    _ ← proc_wakeup kernel me'
    say parent_assigned

  -- `qsort` may be any function for the standard library's.
  pub fifo : Qsort → ℕ → List Process → M (Option State)
  fifo qsort fuel proc = do
    let sorted = qsort compare proc
    print_table sorted
    prepare
    let fresh = map unstarted sorted
    forever fuel round (record { proc = fresh; running = none; finish = 0; time_cnt = 0 })
