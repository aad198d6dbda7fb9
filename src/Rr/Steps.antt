-- ===== src/Rr/Steps.antt =====
-- The parts of a round of RR's loop: what they return, and what shows of them in the trace.
use os_project.Prelude.{
  ℕ, suc, ◌+◌, ◌-◌, ◌%◌, ◌≤◌, ◌<◌, ◌≡◌, refl, ap, ◌∙◌, none, some, List, ◌∷◌, Bool-cases, true,
  false, inl, inr, lt→ltb, ==-self, ◌==◌, ℤ, pos, eq_ℤ, set, length, arith, ◌+ℤ◌, ◌-ℤ◌,
}
use os_project.Process.{Process, proc_at, same_index}
use os_project.Process.Jobs.{Job, Entry, Shows, for_each-Shows}
use os_project.Os.{
  Trace, Kernel, IsReliable, M, ◌>>=◌, ◌>>◌, pure, say, int_max, spin, ready_at, checked,
}
use os_project.Os.Loop.{again}
use os_project.Os.Triple.{Returns, bind_rule, run_rule, pure_rule}
use os_project.Rr.Control.{unit_time, proc_exec, proc_block, proc_wakeup}
use os_project.Rr.Control.Laws.{seen, proc_exec-Quiet, proc_block-Quiet, proc_wakeup-Quiet}
use os_project.Rr.{
  State, interval, arrive, arrivals, rr_next, next_turn, first_ready, rotate, switch, run_down,
  pass, is_over, longer_wait,
}

wait_sum :
    (wait now arrival : ℕ) (tr : Trace)
    → arrival ≤ now
    → wait + now ≤ int_max
    → ((checked (pos wait +ℤ pos now) >>= λ sum.
          checked (sum -ℤ pos arrival) >>= λ since. checked (since -ℤ pos 0))
        tr)
      ≡ pure (pos (wait + (now - arrival))) tr
wait_sum wait now arrival tr early fits = ground arith

module _ (kernel : Kernel) (stray : Process) where
  arrive-Entry :
      (now : ℕ) (p : Process) (j : Job) (tr : Trace)
      → IsReliable kernel
      → Entry now p j
      → Returns
          (arrive kernel stray now p)
          tr
          (λ p' tr'. Entry (now + 1) p' j × (seen tr' ≡ seen tr))
  unfolding arrive
  arrive-Entry now p j tr reliable e = elim (Bool-cases (eq_ℤ p.ready (pos now))) [
    | inl here ↦ rw here (
        bind_rule (proc_exec kernel p) (λ pid. proc_block kernel pid >>= λ _. announce pid)
          (proc_exec-Quiet kernel p tr reliable)
          λ pid tr' (born, q).
            bind_rule (proc_block kernel pid) (λ _. announce pid) (proc_block-Quiet kernel pid tr')
              λ _ tr'' q'. run_rule (announce pid) refl (ground arith, q' ∙ q))
    | inr other ↦ rw other (pure_rule p tr (ground arith, refl))
  ]
    where
      announce : ℤ → M Process
      announce pid = say (ready_at p.name now) >> pure (record p { pid = pid })

  pub arrivals-Shows :
      (now : ℕ) (ps : List Process) (js : List Job) (tr : Trace)
      → IsReliable kernel
      → Shows now ps js
      → Returns
          (arrivals kernel stray now ps)
          tr
          (λ ps' tr'. Shows (now + 1) ps' js × (seen tr' ≡ seen tr))
  unfolding arrivals
  arrivals-Shows now ps js tr reliable =
      for_each-Shows seen (arrive kernel stray now) now (λ p j t. arrive-Entry now p j t reliable)
        ps js tr

  pub rr_next-idle :
      (s : State) (tr : Trace)
      → s.running ≡ none
      → rr_next kernel stray s tr ≡ pure (first_ready 0 s.proc) tr
  unfolding rr_next
  rr_next-idle s tr e = rw (e, rr_next)

  pub rr_next-keep :
      (s : State) (i : ℕ) (tr : Trace)
      → s.running ≡ some i
      → ((s.time_now - s.time_last) % interval == 0) ≡ false
      → rr_next kernel stray s tr ≡ pure (some i) tr
  unfolding rr_next
  rr_next-keep s i tr e early = rw (e, rr_next) (rw early)

  next_turn-found :
      (ps : List Process) (i k : ℕ) (tr : Trace)
      → rotate kernel stray ps (length ps) ((i + 1) % length ps) ≡ some k
      → next_turn kernel stray ps i tr ≡ pure (some k) tr
  unfolding next_turn
  next_turn-found ps i k tr found = rw (found, next_turn)

  pub rr_next-turn :
      (s : State) (i k : ℕ) (tr : Trace)
      → s.running ≡ some i
      → ((s.time_now - s.time_last) % interval == 0) ≡ true
      → rotate kernel stray s.proc (length s.proc) ((i + 1) % length s.proc) ≡ some k
      → rr_next kernel stray s tr ≡ pure (some k) tr
  unfolding rr_next
  rr_next-turn s i k tr e over found =
      rw (e, rr_next) (rw over (next_turn-found s.proc i k tr found))

  pub switch-none : (s : State) (tr : Trace) → switch kernel stray s none tr ≡ pure s tr
  unfolding switch
  switch-none s tr = refl

  pub switch-stay :
      (s : State) (i : ℕ) (tr : Trace)
      → s.running ≡ some i
      → switch kernel stray s (some i) tr ≡ pure s tr
  unfolding switch
  switch-stay s i tr e = rw (ap (λ r. same_index r (some i)) e) (rw (==-self i))

  pub switch-change :
      (s : State) (i : ℕ) (tr : Trace)
      → same_index s.running (some i) ≡ false
      → Returns (switch kernel stray s (some i)) tr (λ s' tr'.
        (s' ≡ record s { running = some i; time_last = s.time_now }) × (seen tr' ≡ seen tr))
  unfolding switch
  switch-change s i tr other = rw other (
      bind_rule (proc_wakeup kernel next) (λ _. proc_block kernel previous >>= λ _. pure changed)
        (proc_wakeup-Quiet kernel next tr)
        λ _ tr' q.
          bind_rule (proc_block kernel previous) (λ _. pure changed)
            (proc_block-Quiet kernel previous tr')
            λ _ tr'' q'. pure_rule changed tr'' (refl, q' ∙ q))
    where
      next : ℤ
      next = (proc_at stray s.proc (some i)).pid

      previous : ℤ
      previous = (proc_at stray s.proc s.running).pid

      changed : State
      changed = record s { running = some i; time_last = s.time_now }

  pub pass_vacant :
      (s : State) (tr : Trace)
      → s.running ≡ none
      → s.time_now < int_max
      → pass kernel stray s tr
        ≡ pure (again (record s { time_now = s.time_now + 1 })) (spin 1000000 ∷ tr)
  unfolding pass unit_time run_down
  pass_vacant s tr e lt = rw (e, lt→ltb s.time_now int_max lt)

  pub pass_run :
      (s : State) (i left : ℕ) (tr : Trace)
      → s.running ≡ some i
      → s.time_now < int_max
      → (proc_at stray s.proc (some i)).exec ≡ pos (suc left)
      → pass kernel stray s tr
        ≡ pure
            (again (record s {
              proc = set s.proc i (record (proc_at stray s.proc (some i)) { exec = pos left });
              time_now = s.time_now + 1;
            }))
            (spin 1000000 ∷ tr)
  unfolding pass unit_time run_down
  pass_run s i left tr e lt exec = rw e (rw exec (rw (lt→ltb s.time_now int_max lt)))

  pub is_over-idle : (s : State) → s.running ≡ none → is_over kernel stray s ≡ false
  unfolding is_over
  is_over-idle s e = rw (e, is_over)

  pub is_over-busy :
      (s : State) (i left : ℕ)
      → s.running ≡ some i
      → (proc_at stray s.proc (some i)).exec ≡ pos left
      → is_over kernel stray s ≡ (left == 0)
  unfolding is_over
  is_over-busy s i left e exec = rw (e, is_over) (rw exec)

  -- At the end of a process, with nothing left of `exec`, `wait` grows by the time since its arrival.
  pub longer_wait_run :
      (s : State) (p : Process) (wait arrival : ℕ) (tr : Trace)
      → s.wait ≡ pos wait
      → p.ready ≡ pos arrival
      → p.exec ≡ pos 0
      → arrival ≤ s.time_now
      → wait + s.time_now ≤ int_max
      → longer_wait kernel stray s p tr ≡ pure (pos (wait + (s.time_now - arrival))) tr
  unfolding longer_wait
  longer_wait_run s p wait arrival tr w r e early fits =
      rw (w, r, e) (ground (arith, wait_sum wait s.time_now arrival tr early fits))
