-- ===== src/Sjf/Awake/Control.antt =====
-- SJF.c, the arrivals: which policies they ask for.
use os_project.Prelude.{
  ℕ, ◌≡◌, refl, Option, inr, ◌∷◌, inl, ℤ, pos, pos_part, eq_ℤ, ltb_ℤ, if◌then◌else◌,
}
use os_project.Process.{Process}
use os_project.Process.Awake.{Arrives}
use os_project.Os.{
  Trace, Kernel, M, Policy, ◌>>=◌, pure, exit, say, repeat, fork, fork_call, fork_fails,
  scheduler_call, scheduler_error, sched_setscheduler, sched_fifo, sched_idle,
}
use os_project.Os.Keeps.{
  Keeps, pure_keeps, run_keeps, step_keeps, if_keeps, bind_keeps, weaken_keeps, repeat_keeps,
}
use os_project.Os.Awake.{OneAwake, Within, Owner, Within-low, Within-AtMostOne, eq_ℤ-path}
use os_project.Cpu.{proc_assign_cpu, child_cpu}
use os_project.Cpu.Awake.{proc_assign_cpu_keeps}
use os_project.Sjf.{unit_t, check, child, adopt, arrive}

-- At each unit of time at most one process holds SCHED_FIFO, the scheduler apart.
abbrev pub Safe : ℤ → Trace → Type 0
Safe me = OneAwake me sched_fifo

-- Those that hold it are as `Q` says.
abbrev pub Awake : ℤ → (ℤ → Type 0) → Trace → Type 0
Awake me = Within me sched_fifo

module _ (kernel : Kernel) (stray : Process) (me : ℤ) where
  pub check_keeps :
      (Q : ℤ → Type 0) (ret : ℤ) (tr : Trace)
      → Safe me tr
      → Awake me Q tr
      → Keeps (Safe me) (check kernel stray ret) tr (λ _ tr'. Awake me Q tr')
  unfolding check
  check_keeps Q ret tr s within =
      if_keeps (Safe me) (ltb_ℤ ret (pos 0)) (say scheduler_error) (pure tt) tr
        (λ _. run_keeps (Safe me) (say scheduler_error) tr s within)
        (λ _. pure_keeps (Safe me) tt tr s within)

  pub unit_t_keeps :
      (o : Option ℤ) (tr : Trace)
      → Safe me tr
      → Awake me (Owner o) tr
      → Keeps (Safe me) unit_t tr (λ _ tr'. Awake me (Owner o) tr')
  unfolding unit_t
  unit_t_keeps o tr s within = record {
    safe = (Within-AtMostOne me sched_fifo o tr within, s);
    meets = within;
  }

  -- A call for another policy than SCHED_FIFO, whose answer is tested.
  pub lower_keeps :
      (o : Option ℤ) (pid : ℤ) (low : Policy) (tr : Trace)
      → ¬ (low ≡ sched_fifo)
      → Safe me tr
      → Awake me (Owner o) tr
      → Keeps
          (Safe me)
          (sched_setscheduler kernel pid low 0 >>= check kernel stray)
          tr
          (λ _ tr'. Awake me (Owner o) tr')
  lower_keeps o pid low tr other s within =
      step_keeps (Safe me) (sched_setscheduler kernel pid low 0) (check kernel stray) refl (
        check_keeps (Owner o) (kernel.scheduler_answer pid low 0 tr) (scheduler_call pid low 0 ∷ tr)
          s
          (λ a holds differs.
            (Within-low me sched_fifo (Owner o) tr within low other pid 0 a holds differs).0))

  adopt_keeps :
      (o : Option ℤ) (p : Process) (pid : ℤ) (tr : Trace)
      → Safe me tr
      → Awake me (Owner o) tr
      → Keeps
          (Safe me)
          (adopt kernel stray p pid)
          tr
          (λ p' tr'. (p'.ready ≡ p.ready) × Awake me (Owner o) tr')
  unfolding adopt
  adopt_keeps o p pid tr s within =
      bind_keeps (Safe me) (proc_assign_cpu kernel pid child_cpu) (λ _. idle >>= λ _. pure adopted)
        tr (proc_assign_cpu_keeps kernel me sched_fifo (Owner o) pid child_cpu tr s within)
        λ _ tr' s' within'.
          bind_keeps (Safe me) idle (λ _. pure adopted) tr'
            (lower_keeps o pid sched_idle tr' (λ e. cc) s' within')
            λ _ tr'' s'' within''. pure_keeps (Safe me) adopted tr'' s'' (refl, within'')
    where
      adopted : Process
      adopted = record p { pid = pid }

      idle : M Unit
      idle = sched_setscheduler kernel pid sched_idle 0 >>= check kernel stray

  child_keeps :
      (o : Option ℤ) (p : Process) (tr : Trace) {Post : Process → Trace → Type 0}
      → Safe me tr
      → Awake me (Owner o) tr
      → Keeps (Safe me) (child kernel stray p) tr Post
  unfolding child
  child_keeps o p tr s within =
      bind_keeps (Safe me) (repeat (pos_part p.exec) unit_t) (λ _. exit 0) tr
        (repeat_keeps (Safe me) (Awake me (Owner o)) unit_t (unit_t_keeps o) (pos_part p.exec) tr s
          within)
        λ _ tr' s' within'. run_keeps (Safe me) (exit 0) tr' s' tt

  pub arrive_keeps :
      (o : Option ℤ) (now : ℕ) (p : Process) (tr : Trace)
      → Safe me tr
      → Awake me (Owner o) tr
      → Keeps
          (Safe me)
          (arrive kernel stray now p)
          tr
          (λ p' tr'. Arrives now p p' × Awake me (Owner o) tr')
  unfolding arrive
  arrive_keeps o now p tr s within =
      if_keeps (Safe me) (eq_ℤ p.ready (pos now)) (fork kernel >>= made) (pure p) tr
        (λ ready. step_keeps (Safe me) (fork kernel) made refl (
          bind_keeps (Safe me) told (λ _. split) (fork_call ∷ tr)
            (if_keeps (Safe me) {Post = λ _ tr'. Awake me (Owner o) tr'} (ltb_ℤ c_pid (pos 0))
              (say fork_fails) (pure tt) (fork_call ∷ tr)
              (λ _. run_keeps (Safe me) (say fork_fails) (fork_call ∷ tr) s within)
              (λ _. pure_keeps (Safe me) tt (fork_call ∷ tr) s within))
            λ _ tr' s' within'.
              if_keeps (Safe me) (eq_ℤ c_pid (pos 0)) (child kernel stray p)
                (adopt kernel stray p c_pid) tr' (λ _. child_keeps o p tr' s' within')
                (λ _.
                  weaken_keeps (Safe me) (adopt kernel stray p c_pid) tr'
                    (adopt_keeps o p c_pid tr' s' within')
                    λ p' tr'' (same, within''). (
                      record {
                        same_ready = same;
                        same_pid = inr (eq_ℤ-path p.ready (pos now) ready);
                      },
                      within'',
                    ))))
        λ _. pure_keeps (Safe me) p tr s (record { same_ready = refl; same_pid = inl refl }, within)
    where
      c_pid : ℤ
      c_pid = kernel.fork_answer tr

      told : M Unit
      told = if ltb_ℤ c_pid (pos 0) then say fork_fails else pure tt

      split : M Process
      split = if eq_ℤ c_pid (pos 0) then child kernel stray p else adopt kernel stray p c_pid

      made : ℤ → M Process
      made c_pid = (if ltb_ℤ c_pid (pos 0) then say fork_fails else pure tt) >>= λ _.
          if eq_ℤ c_pid (pos 0) then child kernel stray p else adopt kernel stray p c_pid
