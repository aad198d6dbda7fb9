-- ===== src/Sjf/Steps.antt =====
-- The parts of a round of SJF's loop: what they return, and what shows of them in the trace.
use os_project.Prelude.{
  ℕ, suc, ◌+◌, ◌<◌, ◌≢◌, ◌⊎◌, ◌≡◌, refl, ap, none, some, List, [], ◌∷◌, ◌++◌, Bool-cases, true,
  false, inl, inr, lt→ltb, ==-self, ◌==◌, if◌then◌else◌, ℤ, pos, eq_ℤ, ltb_ℤ, set, arith,
}
use os_project.Process.{Process, Name, proc_at, same_index, least_by}
use os_project.Process.Jobs.{Job, Entry, Shows, for_each-Shows}
use os_project.Os.{
  Trace, Kernel, IsReliable, M, ◌>>=◌, ◌>>◌, pure, say, int_max, spin, print, fork, fork_call,
  affinity_call, scheduler_call, sched_setscheduler, Policy, sched_fifo, sched_idle, reaped,
  fork_fails, scheduler_error,
}
use os_project.Os.Loop.{again}
use os_project.Os.Triple.{Returns, bind_rule, step_rule, run_rule, pure_rule, weaken}
use os_project.Cpu.{proc_assign_cpu, child_cpu}
use os_project.Cpu.Laws.{proc_assign_cpu_run}
use os_project.Sjf.{
  State, unit_t, check, adopt, arrive, arrivals, choose, switch, run_down, pass, is_over, child,
}

-- The units of time that have passed, and who was reaped and when, the first first.
abbrev pub seen : Trace → ℕ × List (Name × ℕ)
seen [] = (0, [])
seen (spin n ∷ tr) = ((seen tr).0 + 1, (seen tr).1)
seen (print (reaped name pid) ∷ tr) = ((seen tr).0, (seen tr).1 ++ (name, (seen tr).0) ∷ [])
seen (_ ∷ tr) = seen tr

eq_ℤ-cases : (a b : ℤ) → (eq_ℤ a b ≡ true) × (a ≡ b) ⊎ (eq_ℤ a b ≡ false) × (a ≢ b)
eq_ℤ-cases a b = ground arith

-- A positive answer of `fork` is the parent's.
parent_no_error : (pid : ℤ) → ltb_ℤ (pos 0) pid ≡ true → ltb_ℤ pid (pos 0) ≡ false
parent_no_error pid h = ground arith

parent_no_child : (pid : ℤ) → ltb_ℤ (pos 0) pid ≡ true → eq_ℤ pid (pos 0) ≡ false
parent_no_child pid h = ground arith

abbrev pub Quiet : {A : Type 0} → Trace → A → Trace → Type 0
Quiet tr a tr' = seen tr' ≡ seen tr

module _ (kernel : Kernel) (stray : Process) where
  pub check-Quiet : (ret : ℤ) (tr : Trace) → Returns (check kernel stray ret) tr (Quiet tr)
  unfolding check
  check-Quiet ret tr = elim (Bool-cases (ltb_ℤ ret (pos 0))) [
    | inl failed ↦ rw failed (run_rule (say scheduler_error) refl refl)
    | inr fine ↦ rw fine (pure_rule tt tr refl)
  ]

  -- A call of `sched_setscheduler` whose answer is only reported.
  pub reschedule :
      {A : Type 0} (pid : ℤ) (policy : Policy) (priority : ℕ) (a : A) (tr : Trace)
      → Returns
          (sched_setscheduler kernel pid policy priority >>= λ ret.
            check kernel stray ret >> pure a)
          tr
          (λ b tr'. (b ≡ a) × (seen tr' ≡ seen tr))
  reschedule pid policy priority a tr =
      let ret = kernel.scheduler_answer pid policy priority tr in
      step_rule (sched_setscheduler kernel pid policy priority)
        (λ ret. check kernel stray ret >> pure a) refl
        (bind_rule (check kernel stray ret) (λ _. pure a)
          (check-Quiet ret (scheduler_call pid policy priority ∷ tr))
          λ _ tr' q. pure_rule a tr' (refl, q))

  pub switch-stay :
      (s : State) (i : ℕ) (tr : Trace)
      → s.running ≡ some i
      → switch kernel stray s (some i) tr ≡ pure s tr
  unfolding switch
  switch-stay s i tr e = rw (ap (λ r. same_index r (some i)) e) (rw (==-self i))

  pub switch-start :
      (s : State) (i : ℕ) (tr : Trace)
      → s.running ≡ none
      → Returns
          (switch kernel stray s (some i))
          tr
          (λ s' tr'. (s' ≡ record s { running = some i; t_last = s.ntime }) × (seen tr' ≡ seen tr))
  unfolding switch
  switch-start s i tr e = rw (ap (λ r. same_index r (some i)) e) (
      reschedule (proc_at stray s.proc (some i)).pid sched_fifo 99
        (record s { running = some i; t_last = s.ntime }) tr)

  pub pass_vacant :
      (s : State) (tr : Trace)
      → s.running ≡ none
      → s.ntime < int_max
      → pass kernel stray s tr ≡ pure (again (record s { ntime = s.ntime + 1 })) (spin 1000000 ∷ tr)
  unfolding pass unit_t run_down
  pass_vacant s tr e lt = rw (e, lt→ltb s.ntime int_max lt)

  pub pass_run :
      (s : State) (i left : ℕ) (tr : Trace)
      → s.running ≡ some i
      → s.ntime < int_max
      → (proc_at stray s.proc (some i)).exec ≡ pos (suc left)
      → pass kernel stray s tr
        ≡ pure
            (again (record s {
              proc = set s.proc i (record (proc_at stray s.proc (some i)) { exec = pos left });
              ntime = s.ntime + 1;
            }))
            (spin 1000000 ∷ tr)
  unfolding pass unit_t run_down
  pass_run s i left tr e lt exec = rw e (rw exec (rw (lt→ltb s.ntime int_max lt)))

  module _ (reliable : IsReliable kernel) where
    adopt-Entry :
        (now : ℕ) (p : Process) (j : Job) (pid : ℤ) (tr : Trace)
        → Entry now p j
        → p.ready ≡ pos now
        → ltb_ℤ (pos 0) pid ≡ true
        → Returns
            (adopt kernel stray p pid)
            tr
            (λ p' tr'. Entry (now + 1) p' j × (seen tr' ≡ seen tr))
    unfolding adopt
    adopt-Entry now p j pid tr e here alive =
        step_rule (proc_assign_cpu kernel pid child_cpu)
          (λ _. sched_setscheduler kernel pid sched_idle 0 >>= λ ret.
            check kernel stray ret >> pure born)
          (proc_assign_cpu_run kernel pid child_cpu tr reliable (omega arith))
          (weaken (reschedule pid sched_idle 0 born (affinity_call pid child_cpu ∷ tr))
            λ p' tr' (same, q). (rw same adopted, q))
      where
        born : Process
        born = record p { pid = pid }

        adopted : Entry (now + 1) born j
        adopted = ground arith

    arrive-Entry :
        (now : ℕ) (p : Process) (j : Job) (tr : Trace)
        → Entry now p j
        → Returns
            (arrive kernel stray now p)
            tr
            (λ p' tr'. Entry (now + 1) p' j × (seen tr' ≡ seen tr))
    unfolding arrive
    arrive-Entry now p j tr e = elim (eq_ℤ-cases p.ready (pos now)) [
      | inl (test, here) ↦ rw test (
          step_rule (fork kernel)
            (λ pid. (if ltb_ℤ pid (pos 0) then say fork_fails else pure tt) >> child_or pid) refl
            (rw (parent_no_error _ (reliable.fork_ok tr)) (
              step_rule (pure tt) (λ _. child_or (kernel.fork_answer tr)) refl
                (rw (parent_no_child _ (reliable.fork_ok tr)) (
                  adopt-Entry now p j (kernel.fork_answer tr) (fork_call ∷ tr) e here
                    (reliable.fork_ok tr))))))
      | inr (test, later) ↦ rw test (pure_rule p tr (ground arith, refl))
    ]
      where
        child_or : ℤ → M Process
        child_or pid = if eq_ℤ pid (pos 0) then child kernel stray p else adopt kernel stray p pid

    pub arrivals-Shows :
        (now : ℕ) (ps : List Process) (js : List Job) (tr : Trace)
        → Shows now ps js
        → Returns
            (arrivals kernel stray now ps)
            tr
            (λ ps' tr'. Shows (now + 1) ps' js × (seen tr' ≡ seen tr))
    unfolding arrivals
    arrivals-Shows now = for_each-Shows seen (arrive kernel stray now) now (arrive-Entry now)

  pub choose-idle :
      (s : State) → s.running ≡ none → choose kernel stray s ≡ least_by (λ p. p.exec) stray s.proc
  unfolding choose
  choose-idle s e = rw (e, choose)

  pub choose-busy : (s : State) (i : ℕ) → s.running ≡ some i → choose kernel stray s ≡ some i
  unfolding choose
  choose-busy s i e = rw (e, choose)

  pub switch-none : (s : State) (tr : Trace) → switch kernel stray s none tr ≡ pure s tr
  unfolding switch
  switch-none s tr = refl

  pub is_over-idle : (s : State) → s.running ≡ none → is_over kernel stray s ≡ false
  unfolding is_over
  is_over-idle s e = rw (e, is_over)

  pub is_over-busy :
      (s : State) (i left : ℕ)
      → s.running ≡ some i
      → (proc_at stray s.proc (some i)).exec ≡ pos left
      → is_over kernel stray s ≡ (left == 0)
  unfolding is_over
  is_over-busy s i left e exec = rw (e, is_over) (rw exec)
