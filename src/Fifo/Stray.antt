-- ===== src/Fifo/Stray.antt =====
-- What FIFO does to the memory in front of its table: `proc_block(proc[running].pid)` where nothing
-- runs.
use os_project.Prelude.{
  ℕ, ◌≡◌, refl, Option, none, some, [], ◌∷◌, Bool-cases, inl, inr, ℤ, minus_one, pos, ltb_ℤ,
}
use os_project.Process.{Process, proc_at}
use os_project.Os.{
  Trace, Kernel, M, Policy, ◌>>=◌, pure, say, scheduler_call, print, context_switch, sched_idle,
  sched_other, idle_error, wakeup_error,
}
use os_project.Os.Triple.{Returns, bind_rule, step_rule, pure_rule}
use os_project.Fifo.Control.{proc_wakeup, proc_block}
use os_project.Fifo.{State, switch}

-- The last process whose policy was changed, and the policy.
abbrev pub last_change : Trace → Option (ℤ × Policy)
last_change [] = none
last_change (scheduler_call pid policy priority ∷ tr) = some (pid, policy)
last_change (_ ∷ tr) = last_change tr

module _ (kernel : Kernel) (stray : Process) where
  proc_wakeup-last_change :
      (pid : ℤ) (tr : Trace)
      → Returns (proc_wakeup kernel pid) tr (λ _ tr'. last_change tr' ≡ some (pid, sched_other))
  unfolding proc_wakeup
  proc_wakeup-last_change pid tr =
      elim (Bool-cases (ltb_ℤ (kernel.scheduler_answer pid sched_other 0 tr) (pos 0))) [
        | inl failed ↦ record {
          value = minus_one;
          after = print wakeup_error ∷ scheduler_call pid sched_other 0 ∷ tr;
          run = rw failed;
          post = refl;
        }
        | inr fine ↦ record {
          value = kernel.scheduler_answer pid sched_other 0 tr;
          after = scheduler_call pid sched_other 0 ∷ tr;
          run = rw fine;
          post = refl;
        }
      ]

  proc_block-last_change :
      (pid : ℤ) (tr : Trace)
      → Returns (proc_block kernel pid) tr (λ _ tr'. last_change tr' ≡ some (pid, sched_idle))
  unfolding proc_block
  proc_block-last_change pid tr =
      elim (Bool-cases (ltb_ℤ (kernel.scheduler_answer pid sched_idle 0 tr) (pos 0))) [
        | inl failed ↦ record {
          value = minus_one;
          after = print idle_error ∷ scheduler_call pid sched_idle 0 ∷ tr;
          run = rw failed;
          post = refl;
        }
        | inr fine ↦ record {
          value = kernel.scheduler_answer pid sched_idle 0 tr;
          after = scheduler_call pid sched_idle 0 ∷ tr;
          run = rw fine;
          post = refl;
        }
      ]

  -- A switch of FIFO from the state in which nothing runs makes the process idle whose number
  -- stands in front of the table, as its last change of a policy.
  pub switch-last_change :
      (s : State) (next : ℕ) (tr : Trace)
      → s.running ≡ none
      → Returns
          (switch kernel stray s (some next))
          tr
          (λ running tr'. (running ≡ some next) × (last_change tr' ≡ some (stray.pid, sched_idle)))
  unfolding switch
  switch-last_change s next tr vacant = rw vacant (
      step_rule (say context_switch)
        (λ _. wake >>= λ _. proc_block kernel stray.pid >>= λ _. pure (some next)) refl
        (bind_rule wake (λ _. proc_block kernel stray.pid >>= λ _. pure (some next))
          (proc_wakeup-last_change (proc_at stray s.proc (some next)).pid
            (print context_switch ∷ tr))
          λ _ tr' w.
            bind_rule (proc_block kernel stray.pid) (λ _. pure (some next))
              (proc_block-last_change stray.pid tr')
              λ _ tr'' b. pure_rule (some next) tr'' (refl, b)))
    where
      wake : M ℤ
      wake = proc_wakeup kernel (proc_at stray s.proc (some next)).pid
