-- ===== src/Psjf/Steps.antt =====
-- The parts of a tick of PSJF's loop: what they return, and what shows of them in the trace.
use os_project.Prelude.{
  ℕ, ◌+◌, ◌≢◌, ◌⊎◌, ◌≡◌, refl, ap, List, [], ◌∷◌, ◌++◌, Bool, true, false, Bool-cases, inl, inr,
  if◌then◌else◌, ℤ, pos, minus_one, eq_ℤ, ltb_ℤ, arith,
}
use os_project.Process.{Process}
use os_project.Process.Jobs.{Job, Pointwise, for_each-Pointwise}
use os_project.Os.{
  Trace, Kernel, IsReliable, M, ◌>>=◌, ◌>>◌, pure, say, spin, print, fork_call, affinity_call,
  scheduler_call, sched_setscheduler, sched_fifo, Message, pid_line, block_error, pre_running_error,
  running_error,
}
use os_project.Os.Triple.{Returns, bind_rule, step_rule, run_rule, pure_rule}
use os_project.Cpu.{child_cpu}
use os_project.Cpu.Laws.{proc_assign_cpu_run}
use os_project.Psjf.{block, high, child, process_ready, arrive, arrivals, demote, switch}
use os_project.Psjf.Waiting.{Entry, Shows}

-- The last line is the pid of a new process: the next call blocks that process.
abbrev pub announced : Trace → Bool
announced (print (pid_line pid) ∷ tr) = true
announced _ = false

-- The process whose priority was the last to be changed, but for those of new processes, and that
-- process at each unit of time, the first first.
abbrev pub seen : Trace → ℤ × List ℤ
seen [] = (minus_one, [])
seen (spin n ∷ tr) = ((seen tr).0, (seen tr).1 ++ (seen tr).0 ∷ [])
seen (scheduler_call pid policy priority ∷ tr) =
    if announced tr then seen tr else (pid, (seen tr).1)
seen (_ ∷ tr) = seen tr

abbrev pub Calm : ℤ × List ℤ → Trace → Type 0
Calm v tr = (seen tr ≡ v) × (announced tr ≡ false)

-- Another process than one that arrives now keeps its pid.
abbrev pub Kept : ℕ → Process → Process → Type 0
Kept now p p' = p.ready ≢ pos now → p'.pid ≡ p.pid

ready-cases :
    (now : ℕ) (b : ℤ)
    → (eq_ℤ (pos now) b ≡ true) × (b ≡ pos now) ⊎ (eq_ℤ (pos now) b ≡ false) × (b ≢ pos now)
ready-cases now b = ground arith

parent_no_child : (pid : ℤ) → ltb_ℤ (pos 0) pid ≡ true → eq_ℤ pid (pos 0) ≡ false
parent_no_child pid h = ground arith

module _ (kernel : Kernel) where
  -- `sched_setscheduler`, and a line when it fails.
  abbrev pub set_priority : ℤ → ℕ → Message → M Unit
  set_priority pid priority message = sched_setscheduler kernel pid sched_fifo priority >>= λ ret.
      if eq_ℤ ret minus_one then say message else pure tt

  or_say : Message → ℤ → M Unit
  or_say message ret = if eq_ℤ ret minus_one then say message else pure tt

  report_failure :
      {Post : Trace → Type 0} (ret : ℤ) (message : Message) (tr : Trace)
      → Post (print message ∷ tr)
      → Post tr
      → Returns (or_say message ret) tr (λ _ tr'. Post tr')
  unfolding or_say
  report_failure ret message tr failed fine = elim (Bool-cases (eq_ℤ ret minus_one)) [
    | inl e ↦ rw e (run_rule (say message) refl failed)
    | inr e ↦ rw e (pure_rule tt tr fine)
  ]

  pub set_priority_rule :
      {Post : Trace → Type 0} (pid : ℤ) (priority : ℕ) (message : Message) (tr : Trace)
      → Post (print message ∷ scheduler_call pid sched_fifo priority ∷ tr)
      → Post (scheduler_call pid sched_fifo priority ∷ tr)
      → Returns (set_priority pid priority message) tr (λ _ tr'. Post tr')
  unfolding or_say
  set_priority_rule {Post = Post} pid priority message tr failed fine =
      step_rule (sched_setscheduler kernel pid sched_fifo priority) (or_say message) refl (
        report_failure {Post = Post} (kernel.scheduler_answer pid sched_fifo priority tr) message
          (scheduler_call pid sched_fifo priority ∷ tr) failed fine)

  module _ (reliable : IsReliable kernel) where
    process_ready_run :
        (p : Process) (tr : Trace)
        → process_ready kernel p tr
          ≡ pure
              (kernel.fork_answer tr)
              (affinity_call (kernel.fork_answer tr) child_cpu ∷ fork_call ∷ tr)
    unfolding process_ready child
    process_ready_run p tr = rw (parent_no_child (kernel.fork_answer tr) (reliable.fork_ok tr)) (
        rw (
          proc_assign_cpu_run kernel (kernel.fork_answer tr) child_cpu (fork_call ∷ tr) reliable
            (omega arith)))

    -- What `PSJF` does with the pid of a new process.
    abbrev announce : Process → ℤ → M Process
    announce p pid =
        say (pid_line pid)
        >> (sched_setscheduler kernel pid sched_fifo block >>= λ ret.
            (if eq_ℤ ret minus_one then say block_error else pure tt)
            >> pure (record p { pid = pid; waiting = pos 1 }))

    announce-Entry :
        (now : ℕ) (v : ℤ × List ℤ) (p : Process) (j : Job) (pid : ℤ) (tr : Trace)
        → Entry now p j
        → p.ready ≡ pos now
        → seen tr ≡ v
        → Returns (announce p pid) tr (λ p' tr'. Entry (now + 1) p' j × Kept now p p' × Calm v tr')
    unfolding or_say
    announce-Entry now v p j pid tr e here calm =
        step_rule (say (pid_line pid))
          (λ _. sched_setscheduler kernel pid sched_fifo block >>= settle) refl
          (step_rule (sched_setscheduler kernel pid sched_fifo block) settle refl (
            bind_rule (or_say block_error ret) (λ _. pure born)
              (report_failure {Post = Calm v} ret block_error
                (scheduler_call pid sched_fifo block ∷ print (pid_line pid) ∷ tr) (calm, refl)
                (calm, refl))
              λ _ tr' calm'.
                pure_rule born tr' (ground arith, (λ other. absurd (other here)), calm')))
      where
        born : Process
        born = record p { pid = pid; waiting = pos 1 }

        ret : ℤ
        ret = kernel.scheduler_answer pid sched_fifo block (print (pid_line pid) ∷ tr)

        settle : ℤ → M Process
        settle ret = or_say block_error ret >> pure born

    arrive-Entry :
        (now : ℕ) (v : ℤ × List ℤ) (p : Process) (j : Job) (tr : Trace)
        → Entry now p j
        → Calm v tr
        → Returns
            (arrive kernel now p)
            tr
            (λ p' tr'. Entry (now + 1) p' j × Kept now p p' × Calm v tr')
    unfolding arrive
    arrive-Entry now v p j tr e calm = elim (ready-cases now p.ready) [
      | inl (test, here) ↦ rw test (
          step_rule (process_ready kernel p) (announce p) (process_ready_run p tr) (
            announce-Entry now v p j pid (affinity_call pid child_cpu ∷ fork_call ∷ tr) e here
              calm.0))
      | inr (test, later) ↦ rw test (pure_rule p tr (ground arith, (λ other. refl), calm))
    ]
      where
        pid : ℤ
        pid = kernel.fork_answer tr

    pub arrivals-Shows :
        (now : ℕ) (v : ℤ × List ℤ) (ps : List Process) (js : List Job) (tr : Trace)
        → Shows now ps js
        → Calm v tr
        → Returns
            (arrivals kernel now ps)
            tr
            (λ ps' tr'. Shows (now + 1) ps' js × Pointwise (Kept now) ps ps' × Calm v tr')
    unfolding arrivals
    arrivals-Shows now v =
        for_each-Pointwise (Entry now) (Entry (now + 1)) (Kept now) (Calm v) (arrive kernel now)
          (arrive-Entry now v)

  abbrev TimelineIs : List ℤ → Trace → Type 0
  TimelineIs past tr = ((seen tr).1 ≡ past) × (announced tr ≡ false)

  demote-TimelineIs :
      (pre_running : ℤ) (past : List ℤ) (tr : Trace)
      → TimelineIs past tr
      → Returns (demote kernel pre_running) tr (λ _ tr'. TimelineIs past tr')
  unfolding demote
  demote-TimelineIs pre_running past tr t = elim (Bool-cases (eq_ℤ pre_running minus_one)) [
    | inl e ↦ rw e (pure_rule tt tr t)
    | inr e ↦ rw e (
        set_priority_rule {Post = TimelineIs past} pre_running high (pre_running_error pre_running)
          tr (rw t.1 (t.0, refl)) (rw t.1 (t.0, refl)))
  ]

  elect-seen :
      (running : ℤ) (past : List ℤ) (tr : Trace)
      → TimelineIs past tr
      → Returns
          (set_priority running block (running_error running))
          tr
          (λ _ tr'. seen tr' ≡ (running, past))
  elect-seen running past tr t =
      set_priority_rule {Post = λ tr'. seen tr' ≡ (running, past)} running block
        (running_error running) tr (rw t.1 (ap (λ l. (running, l)) t.0))
        (rw t.1 (ap (λ l. (running, l)) t.0))

  same_pid : (a b : ℤ) → eq_ℤ a b ≡ true → a ≡ b
  same_pid a b e = ground arith

  -- After a switch the process that runs is the last whose priority was changed.
  pub switch-seen :
      (running pre_running : ℤ) (past : List ℤ) (tr : Trace)
      → Calm (pre_running, past) tr
      → Returns (switch kernel running pre_running) tr (λ _ tr'. seen tr' ≡ (running, past))
  unfolding switch
  switch-seen running pre_running past tr calm = elim (Bool-cases (eq_ℤ running pre_running)) [
    | inl e ↦ rw e (pure_rule tt tr (rw (same_pid running pre_running e) calm.0))
    | inr e ↦ rw e (
        bind_rule (demote kernel pre_running)
          (λ _. set_priority running block (running_error running))
          (demote-TimelineIs pre_running past tr (ap (λ (w : ℤ × List ℤ). w.1) calm.0, calm.1))
          λ _ tr' t. elect-seen running past tr' t)
  ]
