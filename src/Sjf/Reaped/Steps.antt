-- ===== src/Sjf/Reaped/Steps.antt =====
-- SJF.c, the functions that report no end: what their calls leave in front of them.
use os_project.Prelude.{
  ℕ, ◌≡◌, refl, Option, none, some, List, [], ◌∷◌, ltb, ℤ, pos, pos_part, minus_one, eq_ℤ, ltb_ℤ,
  if◌then◌else◌,
}
use os_project.Process.{Process, proc_at, same_index}
use os_project.Os.{
  Call, Trace, Kernel, M, ◌>>=◌, ◌>>◌, pure, exit, say, repeat, print, reaped, wait_call, fork,
  fork_call, fork_fails, affinity_call, affinity_perror, core_error, scheduler_call,
  scheduler_error, sched_setaffinity, sched_setscheduler, sched_idle, sched_fifo,
}
use os_project.Os.Keeps.{
  Keeps, pure_keeps, run_keeps, step_keeps, if_keeps, bind_keeps, weaken_keeps, repeat_keeps,
  for_each_keeps,
}
use os_project.Cpu.{proc_assign_cpu, child_cpu, cpu_set_size}
use os_project.Sjf.{State, unit_t, check, child, adopt, arrive, arrivals, switch}

-- What a call needs in front of it: a line that reports an end, the wait for the process that it
-- names.
abbrev pub Follows : Call → Trace → Type 0
Follows (print (reaped name pid)) tr = (before : Trace) × (tr ≡ wait_call pid ∷ before)
Follows _ tr = Unit

abbrev pub AllFollow : Trace → Type 0
AllFollow [] = Unit
AllFollow (c ∷ tr) = Follows c tr × AllFollow tr

-- The computation leaves such a trace, whatever it answers.
abbrev pub Leaves : {A : Type 0} → M A → Trace → Type 0
Leaves m tr = Keeps AllFollow m tr (λ _ _. Unit)

module _ (kernel : Kernel) (stray : Process) where
  pub proc_assign_cpu_fine :
      (pid : ℤ) (core : ℕ) (tr : Trace) → AllFollow tr → Leaves (proc_assign_cpu kernel pid core) tr
  unfolding proc_assign_cpu
  proc_assign_cpu_fine pid core tr s =
      if_keeps AllFollow (ltb cpu_set_size core) (say core_error >> pure minus_one)
        (sched_setaffinity kernel pid core >>= tested) tr
        (λ _. run_keeps AllFollow (say core_error >> pure minus_one) tr (tt, s) tt)
        λ _. step_keeps AllFollow (sched_setaffinity kernel pid core) tested refl (
          if_keeps AllFollow (ltb_ℤ (kernel.affinity_answer pid core tr) (pos 0)) failed
            (pure (pos 0)) (affinity_call pid core ∷ tr)
            (λ _. run_keeps AllFollow failed (affinity_call pid core ∷ tr) (tt, (tt, s)) tt)
            (λ _. pure_keeps AllFollow (pos 0) (affinity_call pid core ∷ tr) (tt, s) tt))
    where
      failed : M ℤ
      failed = say affinity_perror >> exit 1

      tested : ℤ → M ℤ
      tested answer = if ltb_ℤ answer (pos 0) then failed else pure (pos 0)

  pub check_fine : (ret : ℤ) (tr : Trace) → AllFollow tr → Leaves (check kernel stray ret) tr
  unfolding check
  check_fine ret tr s =
      if_keeps AllFollow (ltb_ℤ ret (pos 0)) (say scheduler_error) (pure tt) tr
        (λ _. run_keeps AllFollow (say scheduler_error) tr (tt, s) tt)
        (λ _. pure_keeps AllFollow tt tr s tt)

  pub unit_t_fine : (tr : Trace) → AllFollow tr → Leaves unit_t tr
  unfolding unit_t
  unit_t_fine tr s = record { safe = (tt, s); meets = tt }

  adopt_fine :
      (p : Process) (pid : ℤ) (tr : Trace) → AllFollow tr → Leaves (adopt kernel stray p pid) tr
  unfolding adopt
  adopt_fine p pid tr s =
      bind_keeps AllFollow (proc_assign_cpu kernel pid child_cpu) (λ _. idle) tr
        (proc_assign_cpu_fine pid child_cpu tr s)
        λ _ tr' s' _. step_keeps AllFollow (sched_setscheduler kernel pid sched_idle 0) told refl (
          bind_keeps AllFollow (check kernel stray (kernel.scheduler_answer pid sched_idle 0 tr'))
            (λ _. pure adopted) (scheduler_call pid sched_idle 0 ∷ tr')
            (check_fine (kernel.scheduler_answer pid sched_idle 0 tr')
              (scheduler_call pid sched_idle 0 ∷ tr') (tt, s'))
            λ _ tr'' s'' _. pure_keeps AllFollow adopted tr'' s'' tt)
    where
      adopted : Process
      adopted = record p { pid = pid }

      told : ℤ → M Process
      told ret_2 = check kernel stray ret_2 >>= λ _. pure adopted

      idle : M Process
      idle = sched_setscheduler kernel pid sched_idle 0 >>= told

  child_fine : (p : Process) (tr : Trace) → AllFollow tr → Leaves (child kernel stray p) tr
  unfolding child
  child_fine p tr s =
      bind_keeps AllFollow (repeat (pos_part p.exec) unit_t) (λ _. exit 0) tr
        (repeat_keeps AllFollow (λ _. Unit) unit_t (λ tr' s' _. unit_t_fine tr' s')
          (pos_part p.exec) tr s tt)
        λ _ tr' s' _. run_keeps AllFollow (exit 0) tr' s' tt

  arrive_fine :
      (now : ℕ) (p : Process) (tr : Trace) → AllFollow tr → Leaves (arrive kernel stray now p) tr
  unfolding arrive
  arrive_fine now p tr s =
      if_keeps AllFollow (eq_ℤ p.ready (pos now)) (fork kernel >>= made) (pure p) tr
        (λ ready. step_keeps AllFollow (fork kernel) made refl (
          bind_keeps AllFollow told (λ _. split) (fork_call ∷ tr)
            (if_keeps AllFollow {Post = λ _ _. Unit} (ltb_ℤ c_pid (pos 0)) (say fork_fails)
              (pure tt) (fork_call ∷ tr)
              (λ _. run_keeps AllFollow (say fork_fails) (fork_call ∷ tr) (tt, (tt, s)) tt)
              (λ _. pure_keeps AllFollow tt (fork_call ∷ tr) (tt, s) tt))
            λ _ tr' s' _.
              if_keeps AllFollow (eq_ℤ c_pid (pos 0)) (child kernel stray p)
                (adopt kernel stray p c_pid) tr' (λ _. child_fine p tr' s')
                (λ _. adopt_fine p c_pid tr' s')))
        λ _. pure_keeps AllFollow p tr s tt
    where
      c_pid : ℤ
      c_pid = kernel.fork_answer tr

      told : M Unit
      told = if ltb_ℤ c_pid (pos 0) then say fork_fails else pure tt

      split : M Process
      split = if eq_ℤ c_pid (pos 0) then child kernel stray p else adopt kernel stray p c_pid

      made : ℤ → M Process
      made c_pid = (if ltb_ℤ c_pid (pos 0) then say fork_fails else pure tt) >>= λ _.
          if eq_ℤ c_pid (pos 0) then child kernel stray p else adopt kernel stray p c_pid

  pub arrivals_fine :
      (now : ℕ) (ps : List Process) (tr : Trace)
      → AllFollow tr
      → Leaves (arrivals kernel stray now ps) tr
  unfolding arrivals
  arrivals_fine now ps tr s =
      weaken_keeps AllFollow (arrivals kernel stray now ps) tr
        (for_each_keeps AllFollow (λ _. Unit) (λ _ _. Unit) (arrive kernel stray now)
          (λ p tr' s' _.
            weaken_keeps AllFollow (arrive kernel stray now p) tr' (arrive_fine now p tr' s')
              λ _ _ _. (tt, tt))
          ps tr s tt)
        λ _ _ _. tt

  pub switch_fine :
      (s : State) (next : Option ℕ) (tr : Trace)
      → AllFollow tr
      → Leaves (switch kernel stray s next) tr
  unfolding switch
  switch_fine s none tr f = pure_keeps AllFollow s tr f tt
  switch_fine s (some next) tr f =
      if_keeps AllFollow (same_index s.running (some next)) (pure s)
        (sched_setscheduler kernel pid sched_fifo 99 >>= raised) tr
        (λ _. pure_keeps AllFollow s tr f tt)
        λ _. step_keeps AllFollow (sched_setscheduler kernel pid sched_fifo 99) raised refl (
          bind_keeps AllFollow (check kernel stray (kernel.scheduler_answer pid sched_fifo 99 tr))
            (λ _. pure elected) (scheduler_call pid sched_fifo 99 ∷ tr)
            (check_fine (kernel.scheduler_answer pid sched_fifo 99 tr)
              (scheduler_call pid sched_fifo 99 ∷ tr) (tt, f))
            λ _ tr' f' _. pure_keeps AllFollow elected tr' f' tt)
    where
      pid : ℤ
      pid = (proc_at stray s.proc (some next)).pid

      elected : State
      elected = record s { running = some next; t_last = s.ntime }

      raised : ℤ → M State
      raised ret_3 = check kernel stray ret_3 >>= λ _. pure elected
