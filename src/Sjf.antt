-- ===== src/Sjf.antt =====
-- SJF.c: the non-preemptive shortest-job-first scheduler.
mod Steps
pub mod Plan
mod Invariant
mod Advance
mod Rounds
pub mod Order
pub mod Makespan
pub mod Refused
pub mod Unique
pub mod First
pub mod Empty
pub mod Reaped
pub mod Awake
mod Tests
use os_project.Prelude.{
  ℕ, ◌+◌, Option, none, some, List, ◌==◌, Bool, false, ℤ, pos, pos_part, eq_ℤ, ltb_ℤ, if◌then◌else◌,
  length, set, map,
}
use os_project.Process.{Process, proc_at, same_index, unstarted, least_by}
use os_project.Process.Sorting.{Qsort}
use os_project.Os.{
  Kernel, M, pure, exit, ◌>>=◌, ◌>>◌, issue, say, spin, fork, sched_setscheduler, for_each, repeat,
  getpid, waitpid, increment, decrement, int_difference, sched_other, sched_idle, sched_fifo,
  called, reaped, fork_fails, scheduler_error,
}
use os_project.Os.Loop.{Round, again, break, forever}
use os_project.Cpu.{parent_cpu, child_cpu, proc_assign_cpu}

-- The table and the globals `running` (an index), `finish_cnt`, `ntime` and `t_last`.
pub record State : Type 0 where
  pub proc : List Process
  pub running : Option ℕ
  pub finish_cnt : ℕ
  pub ntime : ℕ
  pub t_last : ℕ

-- The macro `UNIT_T`: the rounds of the empty loop.
pub unit_t : M Unit
unit_t = issue (spin 1000000)

unfoldable pub cmp : Process → Process → ℤ
cmp p q = int_difference p.ready q.ready

module _ (kernel : Kernel) (stray : Process) where
  -- `if (ret < 0) perror("sched_setscheduler");`
  pub check : ℤ → M Unit
  check ret = if ltb_ℤ ret (pos 0) then say scheduler_error else pure tt

  -- What the child does: it never comes back to the loop.
  pub child : Process → M Process
  unfolding unit_t
  child p = repeat (pos_part p.exec) unit_t >> exit 0

  -- What the parent does with the pid of a child.
  pub adopt : Process → ℤ → M Process
  unfolding check
  adopt p c_pid = do
    _ ← proc_assign_cpu kernel c_pid child_cpu
    ret_2 ← sched_setscheduler kernel c_pid sched_idle 0
    check ret_2
    pure (record p { pid = c_pid })

  -- The body of `if (proc[i].ready == ntime)`. `fork` answers 0 in the child.
  pub arrive : ℕ → Process → M Process
  unfolding child adopt
  arrive ntime p =
      if eq_ℤ p.ready (pos ntime)
      then (do
        c_pid ← fork kernel
        if ltb_ℤ c_pid (pos 0) then say fork_fails else pure tt
        if eq_ℤ c_pid (pos 0) then child p else adopt p c_pid)
      else pure p

  pub arrivals : ℕ → List Process → M (List Process)
  arrivals ntime proc = for_each (arrive ntime) proc

  -- The index of the next process: the running one, or the first of the shortest.
  pub choose : State → Option ℕ
  choose s = elim s.running [ some i ↦ some i | none ↦ least_by (λ p. p.exec) stray s.proc ]

  -- `if (next != -1) if (running != next) ...`, the new state.
  pub switch : State → Option ℕ → M State
  unfolding check
  switch s none = pure s
  switch s (some next) = if same_index s.running (some next) then pure s else (do
    ret_3 ← sched_setscheduler kernel (proc_at stray s.proc (some next)).pid sched_fifo 99
    check ret_3
    pure (record s { running = some next; t_last = s.ntime }))

  -- `if (running != -1) proc[running].exec--;`
  pub run_down : Option ℕ → List Process → M (List Process)
  run_down none proc = pure proc
  run_down (some i) proc = do
    left ← decrement (proc_at stray proc (some i)).exec
    pure (set proc i (record (proc_at stray proc (some i)) { exec = left }))

  -- A unit of time passes.
  pub pass : State → M (Round State)
  unfolding unit_t run_down
  pass s = do
    unit_t
    proc ← run_down s.running s.proc
    ntime ← increment s.ntime
    pure (again (record s { proc = proc; ntime = ntime }))

  -- The body of the loop behind the test for the end of the running process.
  pub advance : State → M (Round State)
  advance s = do
    proc ← arrivals s.ntime s.proc
    let arrived = record s { proc = proc }
    switched ← switch arrived (choose arrived)
    pass switched

  pub is_over : State → Bool
  is_over s = elim s.running [
    | none ↦ false
    | some i ↦ eq_ℤ (proc_at stray s.proc (some i)).exec (pos 0)
  ]

  -- The body of `if (running != -1 && proc[running].exec == 0)`, with what follows it.
  pub reap : State → M (Round State)
  reap s = do
    waitpid (proc_at stray s.proc s.running).pid
    say (reaped (proc_at stray s.proc s.running).name (proc_at stray s.proc s.running).pid)
    let idle = record s { running = none; finish_cnt = s.finish_cnt + 1 }
    if s.finish_cnt + 1 == length s.proc then pure (break idle) else advance idle

  -- The body of `while (1)`.
  pub round : State → M (Round State)
  round s = if is_over s then reap s else advance s

  -- The calls by which the scheduler prepares itself.
  pub prepare : M Unit
  unfolding check
  prepare = do
    p_pid ← getpid kernel
    _ ← proc_assign_cpu kernel p_pid parent_cpu
    p_pid2 ← getpid kernel
    ret_1 ← sched_setscheduler kernel p_pid2 sched_other 0
    check ret_1

  pub loop : ℕ → List Process → M (Option State)
  loop fuel proc =
      forever fuel round
        (record { proc = proc; running = none; finish_cnt = 0; ntime = 0; t_last = 0 })

  -- The process exits behind the loop; `none` means that the fuel ran out.
  pub leave : Option State → M (Option State)
  leave none = pure none
  leave (some s) = exit 0

  pub sjf : Qsort → ℕ → List Process → M (Option State)
  sjf qsort fuel proc = do
    say called
    let sorted = qsort cmp proc
    prepare
    ended ← loop fuel (map unstarted sorted)
    leave ended
