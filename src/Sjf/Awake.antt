-- ===== src/Sjf/Awake.antt =====
-- SJF.c: which processes hold SCHED_FIFO in a run of `SJF`.
mod Control
pub mod Steps
pub mod Rounds
use os_project.Prelude.{
  ℕ, zero, suc, ◌+◌, ◌%◌, ◌-◌, ◌+ℤ◌, ◌-ℤ◌, ◌<◌, ◌≡◌, ◌⊎◌, inl, inr, refl, sym, ap, ◌∙◌, Option,
  none, some, List, [], ◌∷◌, Bool-cases, true, false, not, ◌&&◌, ◌==◌, ℤ, pos, pos_part, minus_one,
  eq_ℤ, ltb_ℤ, ltb, if◌then◌else◌, get_or, length, map, arith,
}
use os_project.Process.{Process, proc_at, is_idle, same_index, unstarted}
use os_project.Process.Awake.{
  OnlyRunning, Arrives, IsStarted, owner, spent, OnlyRunning-start, OnlyRunning-arrivals,
  OnlyRunning-switch, OnlyRunning-spent,
}
use os_project.Process.Sorting.{Qsort}
use os_project.Process.Jobs.{Pointwise}
use os_project.Os.{
  Trace, Kernel, M, Policy, ◌>>=◌, ◌>>◌, pure, exit, hang, say, spin, print, repeat, fork_call,
  affinity_call, scheduler_call, wait_call, sched_other, sched_idle, sched_setscheduler,
  scheduler_error, sched_setaffinity, core_error, affinity_perror, fork_error, fork, ready_at,
  finish_at, waitpid, checked, average, priority_error, getpid, increment, decrement,
}
use os_project.Os.Loop.{Round, again, break, forever}
use os_project.Os.Keeps.{
  Keeps, pure_keeps, run_keeps, step_keeps, if_keeps, bind_keeps, weaken_keeps, increment_keeps,
  checked_keeps, decrement_keeps, repeat_keeps, for_each_keeps, Again, forever_keeps,
}
use os_project.Os.Awake.{
  policy_of, AtUnits, AtMostOne, OneAwake, Within, Owner, Within-high, Within-self, Within-low,
  Within-wait, Within-AtMostOne, eq_ℤ-path,
}
use os_project.Os.{print, table_row, parent_assigned}
use os_project.Prelude.{◌∷◌, [], ◌⊎◌, inl, inr}
use os_project.Sjf.{State, cmp, check, prepare, loop, leave, sjf, round}
use os_project.Sjf.Awake.Control.{Safe, Awake, lower_keeps}
use os_project.Sjf.Awake.Rounds.{round_keeps}
use os_project.Sjf.Awake.Steps.{Inv}
use os_project.Cpu.{proc_assign_cpu, parent_cpu}
use os_project.Cpu.Awake.{proc_assign_cpu_keeps}
use os_project.Os.{called, exit, sched_fifo, sched_setscheduler}

module _ (kernel : Kernel) (stray : Process) (me : ℤ) where
  prepare_keeps :
      (tr : Trace)
      → Safe me tr
      → Awake me (Owner none) tr
      → Keeps (Safe me) (prepare kernel stray) tr (λ _ tr'. Awake me (Owner none) tr')
  unfolding prepare
  prepare_keeps tr safe within = step_keeps (Safe me) (getpid kernel) assigned refl (
      bind_keeps (Safe me) (proc_assign_cpu kernel (kernel.own_pid tr) parent_cpu)
        (λ _. getpid kernel >>= lowered) tr
        (proc_assign_cpu_keeps kernel me sched_fifo (Owner none) (kernel.own_pid tr) parent_cpu tr
          safe within)
        λ _ tr' safe' within'. step_keeps (Safe me) (getpid kernel) lowered refl (
          lower_keeps kernel stray me none (kernel.own_pid tr') sched_other tr' (λ e. cc) safe'
            within'))
    where
      lowered : ℤ → M Unit
      lowered pid = sched_setscheduler kernel pid sched_other 0 >>= check kernel stray

      assigned : ℤ → M Unit
      assigned pid = proc_assign_cpu kernel pid parent_cpu >>= λ _. getpid kernel >>= lowered

  leave_keeps :
      (r : Option State) (tr : Trace)
      → Safe me tr
      → Keeps (Safe me) (leave kernel stray r) tr (λ _ _. Unit)
  unfolding leave
  leave_keeps none tr safe = pure_keeps (Safe me) none tr safe tt
  leave_keeps (some s) tr safe = run_keeps (Safe me) (exit 0) tr safe tt

  -- Whatever the kernel answers and however much fuel SJF has, on every table and with every
  -- function for qsort, and whichever process is taken for the scheduler, at each unit of time of
  -- SJF at most one other process holds SCHED_FIFO by the calls that SJF has made, a process that
  -- was waited for aside.
  pub sjf-OneAwake :
      (qsort : Qsort) (fuel : ℕ) (proc : List Process)
      → OneAwake me sched_fifo (sjf kernel stray qsort fuel proc []).1
  unfolding sjf loop
  sjf-OneAwake qsort fuel proc =
      let kept =
        bind_keeps (Safe me) (prepare kernel stray) (λ _. run >>= leave kernel stray) said
          (prepare_keeps said tt (λ a holds other. cc))
          λ _ tr safe within.
            bind_keeps (Safe me) run (leave kernel stray) tr
              (forever_keeps (Safe me) (Inv kernel stray me) (round kernel stray)
                (round_keeps kernel stray me) fuel fresh tr safe
                (OnlyRunning-start me sched_fifo stray sorted tr within))
              λ r tr' safe' _. leave_keeps r tr' safe' in
      kept.safe
    where
      sorted : List Process
      sorted = qsort cmp proc

      said : Trace
      said = print called ∷ []

      fresh : State
      fresh = record {
        proc = map unstarted sorted;
        running = none;
        finish_cnt = 0;
        ntime = 0;
        t_last = 0;
      }

      run : M (Option State)
      run = forever fuel (round kernel stray) fresh
