-- ===== src/Sjf/Reaped.antt =====
-- SJF.c: the wait for a process in front of the line that reports its end.
pub mod Steps
use os_project.Prelude.{
  ℕ, ◌+◌, ◌≡◌, refl, Option, none, some, List, [], ◌∷◌, ◌==◌, Bool-cases, inl, inr, true, false,
  ltb, ℤ, pos, pos_part, minus_one, eq_ℤ, ltb_ℤ, if◌then◌else◌, length, set, map,
}
use os_project.Process.{Process, proc_at, same_index, unstarted}
use os_project.Process.Sorting.{Qsort}
use os_project.Os.{
  Call, Trace, Kernel, M, ◌>>=◌, ◌>>◌, pure, exit, say, repeat, print, reaped, called, wait_call,
  waitpid, fork, fork_call, fork_fails, affinity_call, affinity_perror, core_error, scheduler_call,
  scheduler_error, sched_setaffinity, sched_setscheduler, getpid, sched_idle, sched_fifo,
  sched_other, increment, decrement,
}
use os_project.Os.Keeps.{
  Keeps, pure_keeps, run_keeps, step_keeps, if_keeps, bind_keeps, weaken_keeps, repeat_keeps,
  for_each_keeps, increment_keeps, decrement_keeps, forever_keeps, Again,
}
use os_project.Os.Loop.{Round, again, break, forever}
use os_project.Cpu.{proc_assign_cpu, parent_cpu, child_cpu, cpu_set_size}
use os_project.Sjf.{
  State, unit_t, cmp, check, child, adopt, arrive, arrivals, choose, switch, run_down, pass,
  advance, is_over, reap, round, prepare, loop, leave, sjf,
}
use os_project.Sjf.Reaped.Steps.{
  AllFollow, Leaves, proc_assign_cpu_fine, check_fine, unit_t_fine, arrivals_fine, switch_fine,
}

module _ (kernel : Kernel) (stray : Process) where
  run_down_fine :
      (running : Option ℕ) (ps : List Process) (tr : Trace)
      → AllFollow tr
      → Leaves (run_down kernel stray running ps) tr
  unfolding run_down
  run_down_fine none ps tr f = pure_keeps AllFollow ps tr f tt
  run_down_fine (some i) ps tr f =
      bind_keeps AllFollow (decrement p.exec) (λ left. pure (set ps i (record p { exec = left })))
        tr (decrement_keeps AllFollow {Post = λ _ _. Unit} p.exec tr f (λ _. tt))
        λ left tr' f' _. pure_keeps AllFollow (set ps i (record p { exec = left })) tr' f' tt
    where
      p : Process
      p = proc_at stray ps (some i)

  pass_fine : (s : State) (tr : Trace) → AllFollow tr → Leaves (pass kernel stray s) tr
  unfolding pass
  pass_fine s tr f =
      bind_keeps AllFollow unit_t (λ _. down) tr (unit_t_fine kernel stray tr f)
        λ _ tr' f' _.
          bind_keeps AllFollow (run_down kernel stray s.running s.proc) counted tr'
            (run_down_fine s.running s.proc tr' f')
            λ ps tr'' f'' _.
              bind_keeps AllFollow (increment s.ntime) (λ now. pure (went ps now)) tr''
                (increment_keeps AllFollow {Post = λ _ _. Unit} s.ntime tr'' f'' tt)
                λ now tr3 f3 _. pure_keeps AllFollow (went ps now) tr3 f3 tt
    where
      went : List Process → ℕ → Round State
      went ps now = again (record s { proc = ps; ntime = now })

      counted : List Process → M (Round State)
      counted ps = increment s.ntime >>= λ now. pure (went ps now)

      down : M (Round State)
      down = run_down kernel stray s.running s.proc >>= counted

  advance_fine : (s : State) (tr : Trace) → AllFollow tr → Leaves (advance kernel stray s) tr
  unfolding advance
  advance_fine s tr f =
      bind_keeps AllFollow (arrivals kernel stray s.ntime s.proc) chosen tr
        (arrivals_fine kernel stray s.ntime s.proc tr f)
        λ ps tr' f' _.
          bind_keeps AllFollow (switch kernel stray (arrived ps) (next ps)) (pass kernel stray) tr'
            (switch_fine kernel stray (arrived ps) (next ps) tr' f')
            λ s' tr'' f'' _. pass_fine s' tr'' f''
    where
      arrived : List Process → State
      arrived ps = record s { proc = ps }

      next : List Process → Option ℕ
      next ps = choose kernel stray (arrived ps)

      chosen : List Process → M (Round State)
      chosen ps = switch kernel stray (arrived ps) (next ps) >>= pass kernel stray

  -- The line that reports an end stands behind the wait.
  reap_fine : (s : State) (tr : Trace) → AllFollow tr → Leaves (reap kernel stray s) tr
  unfolding reap
  reap_fine s tr f =
      step_keeps AllFollow (waitpid gone.pid) (λ _. told) refl
        (step_keeps AllFollow (say (reaped gone.name gone.pid)) (λ _. rest) refl
          (if_keeps AllFollow (s.finish_cnt + 1 == length s.proc) (pure (break idle))
            (advance kernel stray idle) after (λ _. pure_keeps AllFollow (break idle) after fine tt)
            (λ _. advance_fine idle after fine)))
    where
      gone : Process
      gone = proc_at stray s.proc s.running

      after : Trace
      after = print (reaped gone.name gone.pid) ∷ wait_call gone.pid ∷ tr

      fine : AllFollow after
      fine = ((tr, refl), (tt, f))

      idle : State
      idle = record s { running = none; finish_cnt = s.finish_cnt + 1 }

      rest : M (Round State)
      rest =
          if s.finish_cnt + 1 == length s.proc then pure (break idle) else advance kernel stray idle

      told : M (Round State)
      told = say (reaped gone.name gone.pid) >> rest

  round_fine :
      (s : State) (tr : Trace)
      → AllFollow tr
      → Keeps AllFollow (round kernel stray s) tr (Again AllFollow (λ _ _. Unit))
  unfolding round
  round_fine s tr f =
      weaken_keeps AllFollow (round kernel stray s) tr
        (if_keeps AllFollow {Post = λ _ _. Unit} (is_over kernel stray s) (reap kernel stray s)
          (advance kernel stray s) tr (λ _. reap_fine s tr f) (λ _. advance_fine s tr f))
        (elim [ again t ↦ λ _ _. tt | break t ↦ λ _ _. tt ])

  prepare_fine : (tr : Trace) → AllFollow tr → Leaves (prepare kernel stray) tr
  unfolding prepare
  prepare_fine tr f = step_keeps AllFollow (getpid kernel) assigned refl (
      bind_keeps AllFollow (proc_assign_cpu kernel (kernel.own_pid tr) parent_cpu)
        (λ _. getpid kernel >>= lowered) tr
        (proc_assign_cpu_fine kernel stray (kernel.own_pid tr) parent_cpu tr f)
        λ _ tr' f' _. step_keeps AllFollow (getpid kernel) lowered refl (
          step_keeps AllFollow (sched_setscheduler kernel (kernel.own_pid tr') sched_other 0)
            (check kernel stray) refl
            (check_fine kernel stray
              (kernel.scheduler_answer (kernel.own_pid tr') sched_other 0 tr')
              (scheduler_call (kernel.own_pid tr') sched_other 0 ∷ tr') (tt, f'))))
    where
      lowered : ℤ → M Unit
      lowered pid = sched_setscheduler kernel pid sched_other 0 >>= check kernel stray

      assigned : ℤ → M Unit
      assigned pid = proc_assign_cpu kernel pid parent_cpu >>= λ _. getpid kernel >>= lowered

  leave_fine : (r : Option State) (tr : Trace) → AllFollow tr → Leaves (leave kernel stray r) tr
  unfolding leave
  leave_fine none tr f = pure_keeps AllFollow none tr f tt
  leave_fine (some s) tr f = run_keeps AllFollow (exit 0) tr f tt

  -- Whatever the kernel answers and however much fuel SJF has, on every table and with every
  -- function for qsort, each line of SJF that reports an end directly follows the wait for the pid
  -- that it names.
  pub sjf-AllFollow :
      (qsort : Qsort) (fuel : ℕ) (proc : List Process)
      → AllFollow (sjf kernel stray qsort fuel proc []).1
  unfolding sjf loop
  sjf-AllFollow qsort fuel proc =
      let kept =
        bind_keeps AllFollow (prepare kernel stray) (λ _. run >>= leave kernel stray) said
          (prepare_fine said (tt, tt))
          λ _ tr f _.
            bind_keeps AllFollow run (leave kernel stray) tr
              (forever_keeps AllFollow (λ _ _. Unit) (round kernel stray)
                (λ s tr' f' _. round_fine s tr' f') fuel fresh tr f tt)
              λ r tr' f' _. leave_fine r tr' f' in
      kept.safe
    where
      said : Trace
      said = print called ∷ []

      fresh : State
      fresh = record {
        proc = map unstarted (qsort cmp proc);
        running = none;
        finish_cnt = 0;
        ntime = 0;
        t_last = 0;
      }

      run : M (Option State)
      run = forever fuel (round kernel stray) fresh
