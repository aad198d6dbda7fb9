-- ===== src/Rr/Control.antt =====
-- RR.c, the functions that control a process: `Unit_time`, `RR_compare`, `proc_exec`, `proc_block`
-- and `proc_wakeup`.
pub mod Laws
use os_project.Prelude.{ℕ, ℤ, pos, pos_part, minus_one, eq_ℤ, ltb_ℤ, if◌then◌else◌}
use os_project.Process.{Process}
use os_project.Os.{
  Kernel, M, pure, exit, ◌>>=◌, ◌>>◌, issue, say, spin, fork, sched_setscheduler, repeat,
  int_difference, sched_other, sched_idle, fork_error, scheduler_error,
}
use os_project.Cpu.{child_cpu, proc_assign_cpu}

-- The macro `Unit_time`: the rounds of the empty loop.
unfoldable pub unit_time : M Unit
unit_time = issue (spin 1000000)

unfoldable pub rr_compare : Process → Process → ℤ
rr_compare p q = int_difference p.ready q.ready

module _ (kernel : Kernel) where
  -- What the child does: it never comes back to the scheduler's loop.
  pub child : Process → M ℤ
  unfolding unit_time
  child proc = repeat (pos_part proc.exec) unit_time >> exit 0

  -- `fork` answers 0 in the child, and the child's pid in the parent.
  unfoldable pub proc_exec : Process → M ℤ
  unfolding child
  proc_exec proc = do
    pid ← fork kernel
    if ltb_ℤ pid (pos 0)
        then (say fork_error >> pure minus_one)
        else if eq_ℤ pid (pos 0)
        then child proc
        else (proc_assign_cpu kernel pid child_cpu >>= λ _. pure pid)

  unfoldable pub proc_block : ℤ → M ℤ
  proc_block pid = do
    ret ← sched_setscheduler kernel pid sched_idle 0
    if ltb_ℤ ret (pos 0) then (say scheduler_error >> pure minus_one) else pure ret

  unfoldable pub proc_wakeup : ℤ → M ℤ
  proc_wakeup pid = do
    ret ← sched_setscheduler kernel pid sched_other 0
    if ltb_ℤ ret (pos 0) then (say scheduler_error >> pure minus_one) else pure ret
