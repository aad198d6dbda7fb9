-- ===== src/Fifo/Control.antt =====
-- FIFO.c, the functions that control a process: `time_unit`, `compare`, `proc_assign_cpu`,
-- `proc_wakeup`, `proc_exec` and `proc_block`.
pub mod Laws
use os_project.Prelude.{ℕ, ℤ, pos, negsuc, pos_part, minus_one, eq_ℤ, ltb_ℤ, if◌then◌else◌}
use os_project.Process.{Process}
use os_project.Os.{
  Kernel, M, pure, exit, ◌>>=◌, ◌>>◌, issue, say, spin, fork, sched_setaffinity, sched_setscheduler,
  getpid, repeat, sched_other, sched_idle, affinity_error, wakeup_error, idle_error, fork_failed,
  forked, exited,
}

abbrev pub parent_cpu : ℕ
parent_cpu = 0

abbrev pub child_cpu : ℕ
child_cpu = 1

-- The rounds of the empty loop.
unfoldable pub time_unit : M Unit
time_unit = issue (spin 1000000)

unfoldable pub compare : Process → Process → ℤ
compare p q =
    if ltb_ℤ p.ready q.ready then minus_one else if eq_ℤ p.ready q.ready then pos 0 else pos 1

module _ (kernel : Kernel) where
  unfoldable pub proc_assign_cpu : ℤ → ℕ → M ℤ
  proc_assign_cpu pid core = do
    answer ← sched_setaffinity kernel pid core
    if ltb_ℤ answer (pos 0) then (say affinity_error >> exit 1) else pure (pos 0)

  unfoldable pub proc_wakeup : ℤ → M ℤ
  proc_wakeup pid = do
    ret ← sched_setscheduler kernel pid sched_other 0
    if ltb_ℤ ret (pos 0) then (say wakeup_error >> pure minus_one) else pure ret

  -- What the child does: it never returns to the scheduler's loop.
  child : Process → ℕ → M ℤ
  unfolding time_unit
  child proc time_cnt = do
    me ← getpid kernel
    say (forked proc.name time_cnt me)
    repeat (pos_part proc.exec) time_unit
    say (exited proc.name time_cnt)
    exit 0

  -- `fork` answers 0 in the child, and the child's pid in the parent.
  unfoldable pub proc_exec : Process → ℕ → M ℤ
  unfolding child proc_assign_cpu
  proc_exec proc time_cnt = do
    pid ← fork kernel
    if ltb_ℤ pid (pos 0)
        then (say fork_failed >> pure minus_one)
        else if eq_ℤ pid (pos 0)
        then child proc time_cnt
        else (proc_assign_cpu pid child_cpu >>= λ _. pure pid)

  unfoldable pub proc_block : ℤ → M ℤ
  proc_block pid = do
    ret ← sched_setscheduler kernel pid sched_idle 0
    if ltb_ℤ ret (pos 0) then (say idle_error >> pure minus_one) else pure ret
