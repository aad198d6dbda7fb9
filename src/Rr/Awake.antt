-- ===== src/Rr/Awake.antt =====
-- RR.c: which processes hold SCHED_OTHER in a run of `RR_main`.
pub mod Control
mod Choice
pub mod Steps
pub mod Rounds
use os_project.Prelude.{
  ℕ, zero, suc, ◌+◌, ◌%◌, ◌-◌, ◌+ℤ◌, ◌-ℤ◌, ◌<◌, ◌≡◌, ◌⊎◌, inl, inr, refl, sym, ap, ◌∙◌, Option,
  none, some, List, [], ◌∷◌, Bool-cases, true, false, not, ◌&&◌, ◌==◌, ℤ, pos, pos_part, minus_one,
  eq_ℤ, ltb_ℤ, ltb, if◌then◌else◌, get_or, length, map, arith,
}
use os_project.Process.{Process, proc_at, is_idle, same_index, unstarted}
use os_project.Process.Awake.{
  OnlyRunning, Arrives, IsStarted, owner, spent, OnlyRunning-start, OnlyRunning-arrivals,
  OnlyRunning-switch, OnlyRunning-spent,
}
use os_project.Process.Sorting.{Qsort}
use os_project.Process.Jobs.{Pointwise}
use os_project.Os.{
  Trace, Kernel, M, Policy, ◌>>=◌, ◌>>◌, pure, exit, hang, say, spin, print, repeat, fork_call,
  affinity_call, scheduler_call, wait_call, sched_other, sched_idle, sched_setscheduler,
  scheduler_error, sched_setaffinity, core_error, affinity_perror, fork_error, fork, ready_at,
  finish_at, waitpid, checked, average, priority_error, getpid, increment, decrement,
}
use os_project.Os.Loop.{Round, again, break, forever}
use os_project.Os.Keeps.{
  Keeps, pure_keeps, run_keeps, step_keeps, if_keeps, bind_keeps, weaken_keeps, increment_keeps,
  checked_keeps, decrement_keeps, repeat_keeps, for_each_keeps, Again, forever_keeps,
}
use os_project.Os.Awake.{
  policy_of, AtUnits, AtMostOne, OneAwake, Within, Owner, Within-high, Within-self, Within-low,
  Within-wait, Within-AtMostOne, eq_ℤ-path,
}
use os_project.Cpu.{proc_assign_cpu, cpu_set_size, child_cpu, parent_cpu}
use os_project.Cpu.Awake.{proc_assign_cpu_keeps}
use os_project.Rr.Control.{unit_time, rr_compare, proc_exec, proc_block, proc_wakeup}
use os_project.Rr.{
  State, interval, first_ready, rotate, next_turn, rr_next, arrive, arrivals, switch, run_down,
  pass, advance, is_over, longer_wait, reap, round, prepare, loop, report, rr_main,
}
use os_project.Rr.Awake.Control.{Safe, Awake}
use os_project.Rr.Awake.Rounds.{round_keeps}
use os_project.Rr.Awake.Steps.{Inv}

module _ (kernel : Kernel) (stray : Process) (me : ℤ) where
  prepare_keeps :
      (tr : Trace)
      → kernel.own_pid tr ≡ me
      → Safe me tr
      → Awake me (Owner none) tr
      → Keeps (Safe me) (prepare kernel stray) tr (λ _ tr'. Awake me (Owner none) tr')
  unfolding prepare
  prepare_keeps tr own safe within = step_keeps (Safe me) (getpid kernel) assigned own_run (
      bind_keeps (Safe me) (proc_assign_cpu kernel me parent_cpu) (λ _. raise_self me) tr
        (proc_assign_cpu_keeps kernel me sched_other (Owner none) me parent_cpu tr safe within)
        λ _ tr' safe' within'.
          step_keeps (Safe me) (sched_setscheduler kernel me sched_other 0) check refl (
            if_keeps (Safe me) (ltb_ℤ (kernel.scheduler_answer me sched_other 0 tr') (pos 0)) failed
              (pure tt) (scheduler_call me sched_other 0 ∷ tr')
              (λ _. run_keeps (Safe me) failed (scheduler_call me sched_other 0 ∷ tr') safe' tt)
              (λ _.
                pure_keeps (Safe me) tt (scheduler_call me sched_other 0 ∷ tr') safe'
                  (Within-self me sched_other (Owner none) tr' within' 0))))
    where
      failed : M Unit
      failed = say priority_error >> exit 1

      check : ℤ → M Unit
      check answer = if ltb_ℤ answer (pos 0) then failed else pure tt

      raise_self : ℤ → M Unit
      raise_self pid = sched_setscheduler kernel pid sched_other 0 >>= check

      assigned : ℤ → M Unit
      assigned pid = proc_assign_cpu kernel pid parent_cpu >>= λ _. raise_self pid

      own_run : getpid kernel tr ≡ pure me tr
      own_run = ap (λ pid. pure pid tr) own

  loop_keeps :
      (fuel : ℕ) (ps : List Process) (tr : Trace)
      → Safe me tr
      → Awake me (Owner none) tr
      → Keeps (Safe me) (loop kernel stray fuel (map unstarted ps)) tr (λ _ _. Unit)
  unfolding loop
  loop_keeps fuel ps tr safe within =
      forever_keeps (Safe me) (Inv kernel stray me) (round kernel stray)
        (round_keeps kernel stray me) fuel
        (record {
          proc = map unstarted ps;
          running = none;
          time_now = 0;
          time_last = 0;
          finish_cnt = 0;
          wait = pos 0;
        })
        tr safe (OnlyRunning-start me sched_other stray ps tr within)

  report_keeps :
      (r : Option State) (tr : Trace)
      → Safe me tr
      → Keeps (Safe me) (report kernel stray r) tr (λ _ _. Unit)
  unfolding report
  report_keeps none tr safe = pure_keeps (Safe me) none tr safe tt
  report_keeps (some s) tr safe =
      run_keeps (Safe me) (say (average s.wait (length s.proc)) >> pure (some s)) tr safe tt

module _ (kernel : Kernel) (stray : Process) where
  -- Whatever the kernel answers and however much fuel RR has, on every table and with every
  -- function for qsort, at each unit of time of RR at most one process other than the scheduler
  -- itself holds SCHED_OTHER by the calls that RR has made, a process that was waited for aside.
  pub rr_main-OneAwake :
      (qsort : Qsort) (fuel : ℕ) (proc : List Process)
      → OneAwake (kernel.own_pid []) sched_other (rr_main kernel stray qsort fuel proc []).1
  unfolding rr_main
  rr_main-OneAwake qsort fuel proc =
      let kept =
        bind_keeps (OneAwake me sched_other) (prepare kernel stray) (λ _. rest) []
          (prepare_keeps kernel stray me [] refl tt (λ a holds other. cc))
          λ _ tr safe within.
            bind_keeps (OneAwake me sched_other)
              (loop kernel stray fuel (map unstarted (qsort rr_compare proc))) (report kernel stray)
              tr (loop_keeps kernel stray me fuel (qsort rr_compare proc) tr safe within)
              λ r tr' safe' _. report_keeps kernel stray me r tr' safe' in
      kept.safe
    where
      me : ℤ
      me = kernel.own_pid []

      rest : M (Option State)
      rest = loop kernel stray fuel (map unstarted (qsort rr_compare proc)) >>= report kernel stray
