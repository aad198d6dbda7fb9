-- ===== src/Rr.antt =====
-- RR.c: `RR_next` and the round-robin scheduler's loop.
pub mod Control
pub mod Ring
pub mod Turns
mod History
mod Steps
mod Invariant
mod Advance
mod Rounds
pub mod Order
mod Idle
pub mod Makespan
pub mod Refused
pub mod Unique
pub mod Lost
pub mod Awake
mod Tests
use os_project.Prelude.{
  ℕ, zero, suc, ◌+◌, ◌-◌, ◌%◌, Option, none, some, List, [], ◌∷◌, ◌==◌, ◌||◌, ◌&&◌, not, Bool, true,
  false, ℤ, pos, minus_one, eq_ℤ, ltb_ℤ, ◌+ℤ◌, ◌-ℤ◌, if◌then◌else◌, length, set, map,
}
use os_project.Process.{Process, Name, proc_at, same_index, is_idle, unstarted}
use os_project.Process.Sorting.{Qsort}
use os_project.Os.{
  Kernel, M, pure, exit, hang, ◌>>=◌, ◌>>◌, say, sched_setscheduler, for_each, getpid, waitpid,
  increment, decrement, checked, sched_other, priority_error, ready_at, finish_at, average,
}
use os_project.Os.Loop.{Round, again, break, forever}
use os_project.Cpu.{parent_cpu, proc_assign_cpu}
use Control.{unit_time, rr_compare, proc_exec, proc_block, proc_wakeup}

-- `interval`, the length of a turn.
abbrev pub interval : ℕ
interval = 500

-- The table, the globals `running` (an index), `time_now`, `time_last` and `finish_cnt`, and the
-- local `wait`.
pub record State : Type 0 where
  pub proc : List Process
  pub running : Option ℕ
  pub time_now : ℕ
  pub time_last : ℕ
  pub finish_cnt : ℕ
  pub wait : ℤ

-- `for (i = 0; ...) if (proc[i].pid != -1 && proc[i].exec > 0) { ret = i; break; }`, from `i` on.
pub first_ready : ℕ → List Process → Option ℕ
first_ready i [] = none
first_ready i (p ∷ ps) =
    if not (eq_ℤ p.pid minus_one) && ltb_ℤ (pos 0) p.exec then some i else first_ready (suc i) ps

module _ (kernel : Kernel) (stray : Process) where
  -- `while (proc[ret].pid == -1 || proc[ret].exec == 0) ret = (ret + 1) % num_process;`, for so many
  -- rounds at most. The body changes nothing but `ret`, so one that has gone through all the
  -- entries in vain goes on for ever.
  pub rotate : List Process → ℕ → ℕ → Option ℕ
  rotate proc zero ret = none
  rotate proc (suc rounds) ret =
      let further = rotate proc rounds ((ret + 1) % length proc) in
      if is_idle (proc_at stray proc (some ret)) then further else some ret

  -- The turn of the running process `i` is over: the next one in the ring.
  pub next_turn : List Process → ℕ → M (Option ℕ)
  next_turn proc i = elim (rotate proc (length proc) ((i + 1) % length proc)) [
    | some ret ↦ pure (some ret)
    | none ↦ hang
  ]

  -- `time_last` is never behind `time_now`.
  pub rr_next : State → M (Option ℕ)
  unfolding first_ready next_turn
  rr_next s = elim s.running [
    | none ↦ pure (first_ready 0 s.proc)
    | some i ↦
        if (s.time_now - s.time_last) % interval == 0 then next_turn s.proc i else pure (some i)
  ]

  -- The body of `if (proc[i].ready == time_now)`.
  pub arrive : ℕ → Process → M Process
  arrive time_now p =
      if eq_ℤ p.ready (pos time_now)
      then (do
        pid ← proc_exec kernel p
        _ ← proc_block kernel pid
        say (ready_at p.name time_now)
        pure (record p { pid = pid }))
      else pure p

  pub arrivals : ℕ → List Process → M (List Process)
  arrivals time_now proc = for_each (arrive time_now) proc

  -- `if (next != -1) if (running != next) ...`, the new state.
  pub switch : State → Option ℕ → M State
  switch s none = pure s
  switch s (some next) = if same_index s.running (some next) then pure s else (do
    _ ← proc_wakeup kernel (proc_at stray s.proc (some next)).pid
    _ ← proc_block kernel (proc_at stray s.proc s.running).pid
    pure (record s { running = some next; time_last = s.time_now }))

  -- `if (running != -1) proc[running].exec--;`
  pub run_down : Option ℕ → List Process → M (List Process)
  run_down none proc = pure proc
  run_down (some i) proc = do
    left ← decrement (proc_at stray proc (some i)).exec
    pure (set proc i (record (proc_at stray proc (some i)) { exec = left }))

  -- A unit of time passes.
  pub pass : State → M (Round State)
  unfolding run_down
  pass s = do
    unit_time
    proc ← run_down s.running s.proc
    time_now ← increment s.time_now
    pure (again (record s { proc = proc; time_now = time_now }))

  -- The body of the loop behind the test for the end of the running process.
  pub advance : State → M (Round State)
  advance s = do
    proc ← arrivals s.time_now s.proc
    let arrived = record s { proc = proc }
    next ← rr_next arrived
    switched ← switch arrived next
    pass switched

  pub is_over : State → Bool
  is_over s = elim s.running [
    | none ↦ false
    | some i ↦ eq_ℤ (proc_at stray s.proc (some i)).exec (pos 0)
  ]

  -- `wait + time_now - proc[running].ready - proc[running].exec`
  pub longer_wait : State → Process → M ℤ
  longer_wait s p = do
    sum ← checked (s.wait +ℤ pos s.time_now)
    since ← checked (sum -ℤ p.ready)
    checked (since -ℤ p.exec)

  -- The body of `if (running != -1 && proc[running].exec == 0)`, with what follows it.
  pub reap : State → M (Round State)
  reap s = do
    waitpid (proc_at stray s.proc s.running).pid
    say (
        finish_at (proc_at stray s.proc s.running).name (proc_at stray s.proc s.running).pid
          s.time_now)
    wait ← longer_wait s (proc_at stray s.proc s.running)
    let idle = record s { running = none; finish_cnt = s.finish_cnt + 1; wait = wait }
    if s.finish_cnt + 1 == length s.proc then pure (break idle) else advance idle

  -- The body of `while (1)`.
  pub round : State → M (Round State)
  round s = if is_over s then reap s else advance s

  -- The calls by which the scheduler prepares itself.
  pub prepare : M Unit
  prepare = do
    p_pid ← getpid kernel
    _ ← proc_assign_cpu kernel p_pid parent_cpu
    answer ← sched_setscheduler kernel p_pid sched_other 0
    if ltb_ℤ answer (pos 0) then (say priority_error >> exit 1) else pure tt

  pub loop : ℕ → List Process → M (Option State)
  loop fuel proc = forever fuel round (record {
    proc = proc;
    running = none;
    time_now = 0;
    time_last = 0;
    finish_cnt = 0;
    wait = pos 0;
  })

  -- The line with the average, of `wait` by the number of processes.
  pub report : Option State → M (Option State)
  report none = pure none
  report (some s) = say (average s.wait (length s.proc)) >> pure (some s)

  pub rr_main : Qsort → ℕ → List Process → M (Option State)
  rr_main qsort fuel proc = do
    let sorted = qsort rr_compare proc
    prepare
    ended ← loop fuel (map unstarted sorted)
    report ended
