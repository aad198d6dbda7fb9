-- ===== src/Psjf.antt =====
-- PSJF.c: the preemptive shortest-job-first scheduler.
pub mod Waiting
mod Steps
pub mod Timeline
mod Invariant
mod Advance
mod Rounds
pub mod Order
pub mod Priorities
pub mod First
pub mod Makespan
pub mod Refused
pub mod Unique
mod Tests
use os_project.Prelude.{
  ℕ, zero, suc, ◌+◌, Option, List, [], ◌∷◌, ◌==◌, ◌&&◌, Bool, true, false, ℤ, pos, minus_one,
  pos_part, eq_ℤ, ltb_ℤ, if◌then◌else◌, length, get_or, set,
}
use os_project.Process.{Process, Name}
use os_project.Os.{
  Kernel, M, pure, exit, ◌>>=◌, ◌>>◌, issue, say, spin, fork, sched_setscheduler, for_each, repeat,
  getpid, increment, decrement, int_max, sched_fifo, born, finished, pid_line, block_error,
  pre_running_error, running_error,
}
use os_project.Os.Loop.{Round, again, break, forever}
use os_project.Cpu.{parent_cpu, child_cpu, proc_assign_cpu}

-- `block.sched_priority` and `high.sched_priority`
abbrev pub block : ℕ
block = 10

abbrev pub high : ℕ
high = 90

-- The table and the locals of `PSJF`; `pre_running` and `running` are pids.
pub record State : Type 0 where
  pub proc : List Process
  pub time : ℕ
  pub pre_running : ℤ
  pub running : ℤ
  pub finished_process : ℕ

pub unit_time : M Unit
unit_time = issue (spin 10000000)

pub some_process_is_ready : List Process → Bool
some_process_is_ready [] = false
some_process_is_ready (p ∷ ps) = if eq_ℤ p.waiting (pos 1) then true else some_process_is_ready ps

-- The test in the loop of `find_min_index`.
abbrev pub is_less : Process → ℤ → Bool
is_less p min = ltb_ℤ p.exec min && eq_ℤ p.waiting (pos 1)

-- The loop of `find_min_index` from the entry `i` on.
pub find_from : ℕ → ℤ → ℕ → List Process → ℕ
find_from i min index [] = index
find_from i min index (p ∷ ps) =
    find_from (suc i) (if is_less p min then p.exec else min) (if is_less p min then i else index)
      ps

pub find_min_index : List Process → ℕ
unfolding find_from
find_min_index pross = find_from 0 (pos int_max) 0 pross

-- What the child does: it never comes back.
pub child : Process → M ℤ
unfolding unit_time
child pros = do
  say (born pros.name)
  repeat (pos_part pros.exec) unit_time
  say (finished pros.name)
  exit 0

module _ (kernel : Kernel) where
  -- `fork` answers 0 in the child.
  pub process_ready : Process → M ℤ
  unfolding child
  process_ready pros = do
    pid ← fork kernel
    if eq_ℤ pid (pos 0) then child pros else (do _ ← proc_assign_cpu kernel pid child_cpu; pure pid)

  -- The body of `if (time == proc[i].ready)`.
  pub arrive : ℕ → Process → M Process
  unfolding process_ready
  arrive time p =
      if eq_ℤ (pos time) p.ready
      then (do
        pid ← process_ready p
        say (pid_line pid)
        ret ← sched_setscheduler kernel pid sched_fifo block
        if eq_ℤ ret minus_one then say block_error else pure tt
        pure (record p { pid = pid; waiting = pos 1 }))
      else pure p

  pub arrivals : ℕ → List Process → M (List Process)
  arrivals time proc = for_each (arrive time) proc

  -- `if (pre_running != -1) ...`
  pub demote : ℤ → M Unit
  demote pre_running = if eq_ℤ pre_running minus_one then pure tt else (do
    ret2 ← sched_setscheduler kernel pre_running sched_fifo high
    if eq_ℤ ret2 minus_one then say (pre_running_error pre_running) else pure tt)

  -- `if (running != pre_running) ...`
  pub switch : ℤ → ℤ → M Unit
  unfolding demote
  switch running pre_running = if eq_ℤ running pre_running then pure tt else (do
    demote pre_running
    ret3 ← sched_setscheduler kernel running sched_fifo block
    if eq_ℤ ret3 minus_one then say (running_error running) else pure tt)

  -- From `pre_running = running;` on, with what is left of the process `p` at `index`.
  pub account : State → ℕ → Process → ℤ → State
  account s index p left =
      if eq_ℤ left (pos 0)
      then record s {
        proc = set s.proc index (record p { exec = left; waiting = pos 0 });
        pre_running = p.pid;
        running = p.pid;
        finished_process = s.finished_process + 1;
      }
      else record s {
        proc = set s.proc index (record p { exec = left });
        pre_running = p.pid;
        running = p.pid;
      }

  module _ (stray : Process) where
    -- The body of `if (some_process_is_ready(proc, n_proc))`, for the process at `index`.
    pub run_process : State → ℕ → M State
    unfolding switch account
    run_process s index = do
      switch (get_or s.proc index stray).pid s.pre_running
      left ← decrement (get_or s.proc index stray).exec
      pure (account s index (get_or s.proc index stray) left)

    pub select : State → M State
    unfolding some_process_is_ready find_min_index run_process
    select s =
        if some_process_is_ready s.proc then run_process s (find_min_index s.proc) else pure s

    -- The body of the loop.
    pub tick : State → M (Round State)
    unfolding arrivals select unit_time
    tick s = do
      proc ← arrivals s.time s.proc
      selected ← select (record s { proc = proc })
      unit_time
      time ← increment selected.time
      pure (again (record selected { time = time }))

    -- `while (finished_process != n_proc)`
    pub round : State → M (Round State)
    unfolding tick
    round s = if s.finished_process == length s.proc then pure (break s) else tick s

    pub psjf : ℕ → List Process → M (Option State)
    psjf fuel proc = do
      me ← getpid kernel
      _ ← proc_assign_cpu kernel me parent_cpu
      forever fuel round (record {
        proc = proc;
        time = 0;
        pre_running = minus_one;
        running = minus_one;
        finished_process = 0;
      })
