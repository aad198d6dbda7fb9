-- ===== src/Fifo/Awake.antt =====
-- FIFO.c: which processes hold SCHED_OTHER in a run of `FIFO`.
mod Control
mod Choice
pub mod Steps
pub mod Rounds
use os_project.Prelude.{
  ℕ, zero, suc, ◌+◌, ◌%◌, ◌-◌, ◌+ℤ◌, ◌-ℤ◌, ◌<◌, ◌≡◌, ◌⊎◌, inl, inr, refl, sym, ap, ◌∙◌, Option,
  none, some, List, [], ◌∷◌, Bool-cases, true, false, not, ◌&&◌, ◌==◌, ℤ, pos, pos_part, minus_one,
  eq_ℤ, ltb_ℤ, ltb, if◌then◌else◌, get_or, length, map, arith,
}
use os_project.Process.{Process, proc_at, is_idle, same_index, unstarted}
use os_project.Process.Awake.{
  OnlyRunning, Arrives, IsStarted, owner, spent, OnlyRunning-start, OnlyRunning-arrivals,
  OnlyRunning-switch, OnlyRunning-spent,
}
use os_project.Process.Sorting.{Qsort}
use os_project.Process.Jobs.{Pointwise}
use os_project.Os.{
  Trace, Kernel, M, Policy, ◌>>=◌, ◌>>◌, pure, exit, hang, say, spin, print, repeat, fork_call,
  affinity_call, scheduler_call, wait_call, sched_other, sched_idle, sched_setscheduler,
  scheduler_error, sched_setaffinity, core_error, affinity_perror, fork_error, fork, ready_at,
  finish_at, waitpid, checked, average, priority_error, getpid, increment, decrement,
}
use os_project.Os.Loop.{Round, again, break, forever}
use os_project.Os.Keeps.{
  Keeps, pure_keeps, run_keeps, step_keeps, if_keeps, bind_keeps, weaken_keeps, increment_keeps,
  checked_keeps, decrement_keeps, repeat_keeps, for_each_keeps, Again, forever_keeps,
}
use os_project.Os.Awake.{
  policy_of, AtUnits, AtMostOne, OneAwake, Within, Owner, Within-high, Within-self, Within-low,
  Within-wait, Within-AtMostOne, eq_ℤ-path,
}
use os_project.Os.{print, table_row, parent_assigned}
use os_project.Prelude.{◌∷◌, [], ◌⊎◌, inl, inr}
use os_project.Fifo.Control.{compare, parent_cpu, proc_assign_cpu, proc_wakeup}
use os_project.Fifo.{State, print_table, prepare, round, fifo}
use os_project.Fifo.Awake.Control.{Safe, Awake, proc_assign_cpu_keeps, proc_wakeup_keeps}
use os_project.Fifo.Awake.Rounds.{round_keeps}
use os_project.Fifo.Awake.Steps.{Inv}

module _ (kernel : Kernel) (stray : Process) (me : ℤ) where
  print_table_keeps :
      (ps : List Process) (tr : Trace)
      → Safe me tr
      → Awake me (Owner none) tr
      → Keeps (Safe me) (print_table kernel stray ps) tr (λ _ tr'. Awake me (Owner none) tr')
  unfolding print_table
  print_table_keeps [] tr safe within = pure_keeps (Safe me) tt tr safe within
  print_table_keeps (p ∷ ps) tr safe within =
      step_keeps (Safe me) (say (table_row p.name p.ready p.exec))
        (λ _. print_table kernel stray ps) refl
        (print_table_keeps ps (print (table_row p.name p.ready p.exec) ∷ tr) safe within)

  -- The scheduler wakes itself up.
  prepare_keeps :
      (tr : Trace)
      → ((tr : Trace) → kernel.own_pid tr ≡ me)
      → Safe me tr
      → Awake me (Owner none) tr
      → Keeps (Safe me) (prepare kernel stray) tr (λ _ tr'. Awake me (Owner none) tr')
  unfolding prepare
  prepare_keeps tr own safe within =
      step_keeps (Safe me) (getpid kernel) assigned (ap (λ pid. pure pid tr) (own tr)) (
        bind_keeps (Safe me) (proc_assign_cpu kernel me parent_cpu) (λ _. getpid kernel >>= woken)
          tr (proc_assign_cpu_keeps kernel stray me (Owner none) me parent_cpu tr safe within)
          λ _ tr' safe' within'.
            step_keeps (Safe me) (getpid kernel) woken (ap (λ pid. pure pid tr') (own tr')) (
              bind_keeps (Safe me) (proc_wakeup kernel me) (λ _. say parent_assigned) tr'
                (proc_wakeup_keeps kernel stray me (Owner none) me tr' safe' within')
                λ _ tr'' safe'' within''.
                  run_keeps (Safe me) (say parent_assigned) tr'' safe''
                    λ a holds other. self a other (within'' a holds other)))
    where
      woken : ℤ → M Unit
      woken pid = proc_wakeup kernel pid >>= λ _. say parent_assigned

      assigned : ℤ → M Unit
      assigned pid = proc_assign_cpu kernel pid parent_cpu >>= λ _. getpid kernel >>= woken

      self : (a : ℤ) → ¬ (a ≡ me) → (a ≡ me) ⊎ ⊥ → ⊥
      self a other (inl same) = other same
      self a other (inr nobody) = nobody

  -- Where getpid always answers the same, whatever else the kernel answers and however much fuel
  -- FIFO has, on every table and with every function for qsort, at each unit of time of FIFO at
  -- most one process other than the scheduler itself holds SCHED_OTHER by the calls that FIFO has
  -- made, a process that was waited for aside.
  pub fifo-OneAwake :
      (qsort : Qsort) (fuel : ℕ) (proc : List Process)
      → ((tr : Trace) → kernel.own_pid tr ≡ me)
      → OneAwake me sched_other (fifo kernel stray qsort fuel proc []).1
  unfolding fifo
  fifo-OneAwake qsort fuel proc own =
      let kept =
        bind_keeps (Safe me) (print_table kernel stray sorted) (λ _. prepared) []
          (print_table_keeps sorted [] tt (λ a holds other. cc))
          λ _ tr safe within.
            bind_keeps (Safe me) (prepare kernel stray) (λ _. run) tr
              (prepare_keeps tr own safe within)
              λ _ tr' safe' within'.
                forever_keeps (Safe me) (Inv kernel stray me) (round kernel stray)
                  (round_keeps kernel stray me) fuel fresh tr' safe'
                  (OnlyRunning-start me sched_other stray sorted tr' within') in
      kept.safe
    where
      sorted : List Process
      sorted = qsort compare proc

      fresh : State
      fresh = record { proc = map unstarted sorted; running = none; finish = 0; time_cnt = 0 }

      run : M (Option State)
      run = forever fuel (round kernel stray) fresh

      prepared : M (Option State)
      prepared = prepare kernel stray >>= λ _. run
