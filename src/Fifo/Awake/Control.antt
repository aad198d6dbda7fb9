-- ===== src/Fifo/Awake/Control.antt =====
-- FIFO.c, the control functions and the arrivals: whom they wake and whom they put to sleep.
use os_project.Prelude.{
  ℕ, ◌≡◌, ◌⊎◌, inl, inr, refl, Option, ◌∷◌, ℤ, pos, pos_part, minus_one, eq_ℤ, ltb_ℤ, if◌then◌else◌,
}
use os_project.Process.{Process}
use os_project.Process.Awake.{Arrives}
use os_project.Os.{
  affinity_call, print, Trace, Kernel, M, ◌>>=◌, ◌>>◌, pure, exit, say, repeat, fork_call,
  sched_other, wakeup_error, idle_error, forked, exited, getpid, affinity_error, sched_setaffinity,
  fork_failed, fork,
}
use os_project.Os.Keeps.{
  Keeps, pure_keeps, run_keeps, step_keeps, if_keeps, bind_keeps, repeat_keeps,
}
use os_project.Os.Awake.Calls.{wakeup_keeps, block_keeps}
use os_project.Os.Awake.{OneAwake, Within, Owner, Within-AtMostOne, eq_ℤ-path}
use os_project.Fifo.Control.{
  time_unit, proc_assign_cpu, child_cpu, proc_exec, proc_block, proc_wakeup,
}
use os_project.Fifo.{arrive}

-- At each unit of time at most one process holds SCHED_OTHER, the scheduler apart.
abbrev pub Safe : ℤ → Trace → Type 0
Safe me = OneAwake me sched_other

-- Those that hold it are as `Q` says.
abbrev pub Awake : ℤ → (ℤ → Type 0) → Trace → Type 0
Awake me = Within me sched_other

module _ (kernel : Kernel) (stray : Process) (me : ℤ) where
  pub proc_wakeup_keeps :
      (Q : ℤ → Type 0) (pid : ℤ) (tr : Trace)
      → Safe me tr
      → Awake me Q tr
      → Keeps (Safe me) (proc_wakeup kernel pid) tr (λ _ tr'. Awake me (λ a. (a ≡ pid) ⊎ Q a) tr')
  unfolding proc_wakeup
  proc_wakeup_keeps Q pid tr s within = wakeup_keeps kernel me Q pid wakeup_error tr s within

  pub proc_block_keeps :
      (Q : ℤ → Type 0) (pid : ℤ) (tr : Trace)
      → Safe me tr
      → Awake me Q tr
      → Keeps (Safe me) (proc_block kernel pid) tr (λ _ tr'. Awake me (λ a. Q a × ¬ (a ≡ pid)) tr')
  unfolding proc_block
  proc_block_keeps Q pid tr s within = block_keeps kernel me Q pid idle_error tr s within

  pub time_unit_keeps :
      (o : Option ℤ) (tr : Trace)
      → Safe me tr
      → Awake me (Owner o) tr
      → Keeps (Safe me) time_unit tr (λ _ tr'. Awake me (Owner o) tr')
  unfolding time_unit
  time_unit_keeps o tr s within = record {
    safe = (Within-AtMostOne me sched_other o tr within, s);
    meets = within;
  }

  pub proc_assign_cpu_keeps :
      (Q : ℤ → Type 0) (pid : ℤ) (core : ℕ) (tr : Trace)
      → Safe me tr
      → Awake me Q tr
      → Keeps (Safe me) (proc_assign_cpu kernel pid core) tr (λ _ tr'. Awake me Q tr')
  unfolding proc_assign_cpu
  proc_assign_cpu_keeps Q pid core tr s within =
      step_keeps (Safe me) (sched_setaffinity kernel pid core) check refl (
        if_keeps (Safe me) (ltb_ℤ (kernel.affinity_answer pid core tr) (pos 0)) fail (pure (pos 0))
          (affinity_call pid core ∷ tr)
          (λ _. run_keeps (Safe me) fail (affinity_call pid core ∷ tr) s tt)
          (λ _. pure_keeps (Safe me) (pos 0) (affinity_call pid core ∷ tr) s within))
    where
      fail : M ℤ
      fail = say affinity_error >> exit 1

      check : ℤ → M ℤ
      check answer = if ltb_ℤ answer (pos 0) then fail else pure (pos 0)

  proc_exec_keeps :
      (o : Option ℤ) (p : Process) (now : ℕ) (tr : Trace)
      → Safe me tr
      → Awake me (Owner o) tr
      → Keeps (Safe me) (proc_exec kernel p now) tr (λ _ tr'. Awake me (Owner o) tr')
  unfolding proc_exec
  proc_exec_keeps o p now tr s within = step_keeps (Safe me) (fork kernel) answered refl (
      if_keeps (Safe me) (ltb_ℤ pid (pos 0)) failed
        (if eq_ℤ pid (pos 0) then in_child else in_parent) made
        (λ _. run_keeps (Safe me) failed made s within)
        λ _.
          if_keeps (Safe me) (eq_ℤ pid (pos 0)) in_child in_parent made
            (λ _. step_keeps (Safe me) (getpid kernel) told refl (
              step_keeps (Safe me) (say (forked p.name now (kernel.own_pid made))) (λ _. left) refl
                (bind_keeps (Safe me) (repeat (pos_part p.exec) time_unit) (λ _. gone) born
                  (repeat_keeps (Safe me) (Awake me (Owner o)) time_unit (time_unit_keeps o)
                    (pos_part p.exec) born s within)
                  λ _ tr' s' within'. run_keeps (Safe me) gone tr' s' tt)))
            (λ _.
              bind_keeps (Safe me) (proc_assign_cpu kernel pid child_cpu) (λ _. pure pid) made
                (proc_assign_cpu_keeps (Owner o) pid child_cpu made s within)
                λ _ tr' s' within'. pure_keeps (Safe me) pid tr' s' within'))
    where
      pid : ℤ
      pid = kernel.fork_answer tr

      made : Trace
      made = fork_call ∷ tr

      failed : M ℤ
      failed = say fork_failed >> pure minus_one

      born : Trace
      born = print (forked p.name now (kernel.own_pid made)) ∷ made

      gone : M ℤ
      gone = say (exited p.name now) >> exit 0

      left : M ℤ
      left = repeat (pos_part p.exec) time_unit >>= λ _. gone

      told : ℤ → M ℤ
      told own = say (forked p.name now own) >> left

      in_child : M ℤ
      in_child = getpid kernel >>= told

      in_parent : M ℤ
      in_parent = proc_assign_cpu kernel pid child_cpu >>= λ _. pure pid

      answered : ℤ → M ℤ
      answered pid =
          if ltb_ℤ pid (pos 0)
          then failed
          else if eq_ℤ pid (pos 0)
          then in_child
          else (proc_assign_cpu kernel pid child_cpu >>= λ _. pure pid)

  pub arrive_keeps :
      (o : Option ℤ) (now : ℕ) (p : Process) (tr : Trace)
      → Safe me tr
      → Awake me (Owner o) tr
      → Keeps
          (Safe me)
          (arrive kernel stray now p)
          tr
          (λ p' tr'. Arrives now p p' × Awake me (Owner o) tr')
  unfolding arrive
  arrive_keeps o now p tr s within =
      if_keeps (Safe me) (eq_ℤ p.ready (pos now)) here (pure p) tr
        (λ ready.
          bind_keeps (Safe me) (proc_exec kernel p now) blocked tr
            (proc_exec_keeps o p now tr s within)
            λ pid tr' s' within'.
              bind_keeps (Safe me) (proc_block kernel pid) (λ _. announce pid) tr'
                (proc_block_keeps (Owner o) pid tr' s' within')
                λ _ tr'' s'' within''. run_keeps (Safe me) (announce pid) tr'' s'' (
                  record { same_ready = refl; same_pid = inr (eq_ℤ-path p.ready (pos now) ready) },
                  λ a holds other. (within'' a holds other).0,
                ))
        λ _. pure_keeps (Safe me) p tr s (record { same_ready = refl; same_pid = inl refl }, within)
    where
      announce : ℤ → M Process
      announce pid = pure (record p { pid = pid })

      blocked : ℤ → M Process
      blocked pid = proc_block kernel pid >>= λ _. announce pid

      here : M Process
      here = proc_exec kernel p now >>= blocked
