-- ===== src/Fifo/Steps.antt =====
-- The parts of a round of FIFO's loop: what they return, and that they report no ending.
use os_project.Prelude.{
  ℕ, suc, ◌+◌, ◌<◌, ◌≡◌, refl, ap, ◌∙◌, Option, none, some, List, ◌∷◌, Bool-cases, inl, inr, lt→ltb,
  ==-self, ◌==◌, false, ℤ, pos, eq_ℤ, set, arith,
}
use os_project.Process.{Process, proc_at, least_by}
use os_project.Process.Jobs.{Job, Entry, Shows, for_each-Shows}
use os_project.Os.{Trace, Kernel, IsReliable, M, ◌>>=◌, pure, say, int_max, spin, context_switch}
use os_project.Os.Loop.{again}
use os_project.Os.Triple.{Returns, bind_rule, step_rule, pure_rule}
use os_project.Fifo.Control.{time_unit, proc_exec, proc_block, proc_wakeup}
use os_project.Fifo.Control.Laws.{endings, proc_exec-Quiet, proc_block-Quiet, proc_wakeup-Quiet}
use os_project.Fifo.{State, arrive, arrivals, next_proc, switch, run_down, pass, is_over}

module _ (kernel : Kernel) (stray : Process) (reliable : IsReliable kernel) where
  abbrev set_pid : Process → ℤ → M Process
  set_pid p pid = proc_block kernel pid >>= λ _. pure (record p { pid = pid })

  arrive-Entry :
      (now : ℕ) (p : Process) (j : Job) (tr : Trace)
      → Entry now p j
      → Returns
          (arrive kernel stray now p)
          tr
          (λ p' tr'. Entry (now + 1) p' j × (endings tr' ≡ endings tr))
  unfolding arrive
  arrive-Entry now p j tr e = elim (Bool-cases (eq_ℤ p.ready (pos now))) [
    | inl here ↦ rw here (
        bind_rule (proc_exec kernel p now) (set_pid p) (proc_exec-Quiet kernel reliable p now tr)
          λ pid tr' born.
            bind_rule (proc_block kernel pid) (λ _. pure (record p { pid = pid }))
              (proc_block-Quiet kernel pid tr')
              λ _ tr'' q. pure_rule (record p { pid = pid }) tr'' (ground arith, q ∙ born.1))
    | inr other ↦ rw other (pure_rule p tr (ground arith, refl))
  ]

  pub arrivals-Shows :
      (now : ℕ) (ps : List Process) (js : List Job) (tr : Trace)
      → Shows now ps js
      → Returns
          (arrivals kernel stray now ps)
          tr
          (λ ps' tr'. Shows (now + 1) ps' js × (endings tr' ≡ endings tr))
  unfolding arrivals
  arrivals-Shows now = for_each-Shows endings (arrive kernel stray now) now (arrive-Entry now)

  pub switch-stay :
      (s : State) (i : ℕ) (tr : Trace)
      → s.running ≡ some i
      → switch kernel stray s (some i) tr ≡ pure (some i) tr
  unfolding switch
  switch-stay s i tr e = rw e (rw (==-self i))

  pub switch-start :
      (s : State) (i : ℕ) (tr : Trace)
      → s.running ≡ none
      → Returns
          (switch kernel stray s (some i))
          tr
          (λ running tr'. (running ≡ some i) × (endings tr' ≡ endings tr))
  unfolding switch
  switch-start s i tr e = rw e (
      step_rule (say context_switch) (λ _. proc_wakeup kernel next.pid >>= λ _. swap_out) refl
        (bind_rule (proc_wakeup kernel next.pid) (λ _. swap_out)
          (proc_wakeup-Quiet kernel next.pid _)
          λ _ tr' q.
            bind_rule (proc_block kernel stray.pid) (λ _. pure (some i))
              (proc_block-Quiet kernel stray.pid tr')
              λ _ tr'' q'. pure_rule (some i) tr'' (refl, q' ∙ q)))
    where
      next : Process
      next = proc_at stray s.proc (some i)

      swap_out : M (Option ℕ)
      swap_out = proc_block kernel stray.pid >>= λ _. pure (some i)

  pub pass_vacant :
      (s : State) (tr : Trace)
      → s.time_cnt < int_max
      → pass kernel stray s none tr
        ≡ pure (again (record s { running = none; time_cnt = s.time_cnt + 1 })) (spin 1000000 ∷ tr)
  unfolding pass run_down time_unit
  pass_vacant s tr lt = rw (lt→ltb s.time_cnt int_max lt)

  pub pass_run :
      (s : State) (i left : ℕ) (tr : Trace)
      → s.time_cnt < int_max
      → (proc_at stray s.proc (some i)).exec ≡ pos (suc left)
      → pass kernel stray s (some i) tr
        ≡ pure
            (again (record s {
              proc = set s.proc i (record (proc_at stray s.proc (some i)) { exec = pos left });
              running = some i;
              time_cnt = s.time_cnt + 1;
            }))
            (spin 1000000 ∷ tr)
  unfolding pass run_down time_unit
  pass_run s i left tr lt e = rw (lt→ltb s.time_cnt int_max lt) (rw e)

  pub next_proc-idle :
      (s : State)
      → s.running ≡ none
      → next_proc kernel stray s ≡ least_by (λ p. p.ready) stray s.proc
  unfolding next_proc
  next_proc-idle s e = rw (e, next_proc)

  pub next_proc-busy : (s : State) (i : ℕ) → s.running ≡ some i → next_proc kernel stray s ≡ some i
  unfolding next_proc
  next_proc-busy s i e = rw (e, next_proc)

  pub switch-none :
      (s : State) (tr : Trace) → s.running ≡ none → switch kernel stray s none tr ≡ pure none tr
  unfolding switch
  switch-none s tr e = ap (λ r. pure r tr) e

  pub is_over-idle : (s : State) → s.running ≡ none → is_over kernel stray s ≡ false
  unfolding is_over
  is_over-idle s e = rw (e, is_over)

  pub is_over-busy :
      (s : State) (i left : ℕ)
      → s.running ≡ some i
      → (proc_at stray s.proc (some i)).exec ≡ pos left
      → is_over kernel stray s ≡ (left == 0)
  unfolding is_over
  is_over-busy s i left e exec = rw (e, is_over) (rw exec)
