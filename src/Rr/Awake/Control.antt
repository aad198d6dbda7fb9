-- ===== src/Rr/Awake/Control.antt =====
-- RR.c, the control functions and the arrivals: whom they wake and whom they put to sleep.
use os_project.Prelude.{
  ℕ, ◌≡◌, ◌⊎◌, inl, inr, refl, Option, ◌∷◌, ℤ, pos, pos_part, minus_one, eq_ℤ, ltb_ℤ, if◌then◌else◌,
}
use os_project.Process.{Process}
use os_project.Process.Awake.{Arrives}
use os_project.Os.{
  Trace, Kernel, M, ◌>>=◌, ◌>>◌, pure, exit, say, repeat, fork_call, sched_other, scheduler_error,
  fork_error, fork, ready_at,
}
use os_project.Os.Keeps.{
  Keeps, pure_keeps, run_keeps, step_keeps, if_keeps, bind_keeps, repeat_keeps,
}
use os_project.Os.Awake.Calls.{wakeup_keeps, block_keeps}
use os_project.Os.Awake.{OneAwake, Within, Owner, Within-AtMostOne, eq_ℤ-path}
use os_project.Cpu.{proc_assign_cpu, child_cpu}
use os_project.Cpu.Awake.{proc_assign_cpu_keeps}
use os_project.Rr.Control.{unit_time, proc_exec, proc_block, proc_wakeup}
use os_project.Rr.{arrive}

-- At each unit of time at most one process holds SCHED_OTHER, the scheduler apart.
abbrev pub Safe : ℤ → Trace → Type 0
Safe me = OneAwake me sched_other

-- Those that hold it are as `Q` says.
abbrev pub Awake : ℤ → (ℤ → Type 0) → Trace → Type 0
Awake me = Within me sched_other

module _ (kernel : Kernel) (stray : Process) (me : ℤ) where
  pub proc_wakeup_keeps :
      (Q : ℤ → Type 0) (pid : ℤ) (tr : Trace)
      → Safe me tr
      → Awake me Q tr
      → Keeps (Safe me) (proc_wakeup kernel pid) tr (λ _ tr'. Awake me (λ a. (a ≡ pid) ⊎ Q a) tr')
  unfolding proc_wakeup
  proc_wakeup_keeps Q pid tr s within = wakeup_keeps kernel me Q pid scheduler_error tr s within

  pub proc_block_keeps :
      (Q : ℤ → Type 0) (pid : ℤ) (tr : Trace)
      → Safe me tr
      → Awake me Q tr
      → Keeps (Safe me) (proc_block kernel pid) tr (λ _ tr'. Awake me (λ a. Q a × ¬ (a ≡ pid)) tr')
  unfolding proc_block
  proc_block_keeps Q pid tr s within = block_keeps kernel me Q pid scheduler_error tr s within

  pub unit_time_keeps :
      (o : Option ℤ) (tr : Trace)
      → Safe me tr
      → Awake me (Owner o) tr
      → Keeps (Safe me) unit_time tr (λ _ tr'. Awake me (Owner o) tr')
  unfolding unit_time
  unit_time_keeps o tr s within = record {
    safe = (Within-AtMostOne me sched_other o tr within, s);
    meets = within;
  }

  proc_exec_keeps :
      (o : Option ℤ) (p : Process) (tr : Trace)
      → Safe me tr
      → Awake me (Owner o) tr
      → Keeps (Safe me) (proc_exec kernel p) tr (λ _ tr'. Awake me (Owner o) tr')
  unfolding proc_exec
  proc_exec_keeps o p tr s within = step_keeps (Safe me) (fork kernel) answered refl (
      if_keeps (Safe me) (ltb_ℤ pid (pos 0)) failed
        (if eq_ℤ pid (pos 0) then in_child else in_parent) forked
        (λ _. run_keeps (Safe me) failed forked s within)
        λ _.
          if_keeps (Safe me) (eq_ℤ pid (pos 0)) in_child in_parent forked
            (λ _.
              bind_keeps (Safe me) (repeat (pos_part p.exec) unit_time) (λ _. exit 0) forked
                (repeat_keeps (Safe me) (Awake me (Owner o)) unit_time (unit_time_keeps o)
                  (pos_part p.exec) forked s within)
                λ _ tr' s' within'. run_keeps (Safe me) (exit 0) tr' s' tt)
            (λ _.
              bind_keeps (Safe me) (proc_assign_cpu kernel pid child_cpu) (λ _. pure pid) forked
                (proc_assign_cpu_keeps kernel me sched_other (Owner o) pid child_cpu forked s
                  within)
                λ _ tr' s' within'. pure_keeps (Safe me) pid tr' s' within'))
    where
      pid : ℤ
      pid = kernel.fork_answer tr

      forked : Trace
      forked = fork_call ∷ tr

      failed : M ℤ
      failed = say fork_error >> pure minus_one

      in_child : M ℤ
      in_child = repeat (pos_part p.exec) unit_time >> exit 0

      in_parent : M ℤ
      in_parent = proc_assign_cpu kernel pid child_cpu >>= λ _. pure pid

      answered : ℤ → M ℤ
      answered pid =
          if ltb_ℤ pid (pos 0)
          then failed
          else if eq_ℤ pid (pos 0)
          then in_child
          else (proc_assign_cpu kernel pid child_cpu >>= λ _. pure pid)

  pub arrive_keeps :
      (o : Option ℤ) (now : ℕ) (p : Process) (tr : Trace)
      → Safe me tr
      → Awake me (Owner o) tr
      → Keeps
          (Safe me)
          (arrive kernel stray now p)
          tr
          (λ p' tr'. Arrives now p p' × Awake me (Owner o) tr')
  unfolding arrive
  arrive_keeps o now p tr s within =
      if_keeps (Safe me) (eq_ℤ p.ready (pos now)) here (pure p) tr
        (λ ready.
          bind_keeps (Safe me) (proc_exec kernel p) blocked tr (proc_exec_keeps o p tr s within)
            λ pid tr' s' within'.
              bind_keeps (Safe me) (proc_block kernel pid) (λ _. announce pid) tr'
                (proc_block_keeps (Owner o) pid tr' s' within')
                λ _ tr'' s'' within''. run_keeps (Safe me) (announce pid) tr'' s'' (
                  record { same_ready = refl; same_pid = inr (eq_ℤ-path p.ready (pos now) ready) },
                  λ a holds other. (within'' a holds other).0,
                ))
        λ _. pure_keeps (Safe me) p tr s (record { same_ready = refl; same_pid = inl refl }, within)
    where
      announce : ℤ → M Process
      announce pid = say (ready_at p.name now) >> pure (record p { pid = pid })

      blocked : ℤ → M Process
      blocked pid = proc_block kernel pid >>= λ _. announce pid

      here : M Process
      here = proc_exec kernel p >>= blocked
