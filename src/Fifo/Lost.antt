-- ===== src/Fifo/Lost.antt =====
-- FIFO where no process can be made, and FIFO on an empty table.
use os_project.Prelude.{
  ℕ, ◌≡◌, refl, none, List, [], ◌∷◌, Bool-cases, inl, inr, ℤ, pos, minus_one, eq_ℤ, ltb_ℤ,
}
use os_project.Process.{Process}
use os_project.Process.Lost.{
  AllLost, StaysLost, unstarted-AllLost, least_by-AllLost, for_each-AllLost,
}
use os_project.Process.Sorting.{Qsort, IsQsort, qsort-nil}
use os_project.Os.{
  Trace, Kernel, M, ◌>>=◌, pure, returned, fork_call, print, fork_failed, sched_idle,
}
use os_project.Os.Forks.{ForkFails, Accepts}
use os_project.Os.Triple.{Returns, bind_rule, step_rule, pure_rule, ends_rule}
use os_project.Os.Loop.{idle_outcome}
use os_project.Fifo.Control.{compare, proc_exec, proc_block}
use os_project.Fifo.{State, arrive, arrivals, next_proc, fifo}
use os_project.Fifo.Idle.{fifo_idles}

module _ (kernel : Kernel) (stray : Process) where
  proc_exec_lost :
      ForkFails kernel
      → (p : Process) (now : ℕ) (tr : Trace)
      → proc_exec kernel p now tr ≡ (returned minus_one, print fork_failed ∷ fork_call ∷ tr)
  unfolding proc_exec
  proc_exec_lost fails p now tr = rw (fails tr) refl

  proc_block_ends : (pid : ℤ) (tr : Trace) → Returns (proc_block kernel pid) tr (λ _ _. Unit)
  unfolding proc_block
  proc_block_ends pid tr =
      elim (Bool-cases (ltb_ℤ (kernel.scheduler_answer pid sched_idle 0 tr) (pos 0))) [
        | inl failed ↦ ends_rule (proc_block kernel pid) tr (rw failed tt)
        | inr fine ↦ ends_rule (proc_block kernel pid) tr (rw fine tt)
      ]

  arrive-StaysLost :
      ForkFails kernel
      → (now : ℕ) (p : Process) (tr : Trace)
      → Returns (arrive kernel stray now p) tr (λ p' _. StaysLost p p')
  unfolding arrive
  arrive-StaysLost fails now p tr = elim (Bool-cases (eq_ℤ p.ready (pos now))) [
    | inl arrives ↦ rw arrives (
        step_rule (proc_exec kernel p now) blocked (proc_exec_lost fails p now tr) (
          bind_rule (proc_block kernel minus_one) (λ _. pure (record p { pid = minus_one }))
            (proc_block_ends minus_one (print fork_failed ∷ fork_call ∷ tr))
            λ _ tr' _. pure_rule (record p { pid = minus_one }) tr' (λ _. refl)))
    | inr later ↦ rw later (pure_rule p tr (λ lost. lost))
  ]
    where
      blocked : ℤ → M Process
      blocked pid = proc_block kernel pid >>= λ _. pure (record p { pid = pid })

  arrivals-AllLost :
      ForkFails kernel
      → (now : ℕ) (ps : List Process) (tr : Trace) → AllLost ps
      → Returns (arrivals kernel stray now ps) tr (λ ps' _. AllLost ps')
  unfolding arrivals
  arrivals-AllLost fails now =
      for_each-AllLost (arrive kernel stray now) (arrive-StaysLost fails now)

  next_proc_lost : (s : State) → AllLost s.proc → s.running ≡ none → next_proc kernel stray s ≡ none
  unfolding next_proc
  next_proc_lost s lost vacant = rw vacant (least_by-AllLost (λ p. p.ready) stray s.proc lost)

  -- Where every fork fails and the kernel lets the scheduler bind itself to the first processor,
  -- FIFO is still in its loop after as many rounds as it has fuel, up to the largest int, and
  -- overflows its clock with more, whatever the table and the function for qsort: it neither breaks
  -- out of the loop nor exits.
  pub fifo_forkless :
      (qsort : Qsort) (fuel : ℕ) (proc : List Process) (tr : Trace)
      → ForkFails kernel
      → Accepts kernel
      → (fifo kernel stray qsort fuel proc tr).0 ≡ idle_outcome fuel
  fifo_forkless qsort fuel proc tr fails accepts =
      fifo_idles kernel stray AllLost next_proc_lost (arrivals-AllLost fails) accepts qsort fuel
        proc tr (unstarted-AllLost (qsort compare proc))

  arrivals-nil :
      (now : ℕ) (ps : List Process) (tr : Trace)
      → ps ≡ []
      → Returns (arrivals kernel stray now ps) tr (λ ps' _. ps' ≡ [])
  unfolding arrivals
  arrivals-nil now ps tr empty = rw empty (pure_rule [] tr refl)

  next_proc-nil : (s : State) → s.proc ≡ [] → s.running ≡ none → next_proc kernel stray s ≡ none
  next_proc-nil s empty vacant = next_proc_lost s (rw empty tt) vacant

  -- On an empty table, where the kernel lets the scheduler bind itself to the first processor and
  -- qsort permutes and sorts, FIFO is still in its loop after as many rounds as it has fuel, up to
  -- the largest int, and overflows its clock with more: it neither breaks out of the loop nor
  -- exits.
  pub fifo_nil :
      (qsort : Qsort) (fuel : ℕ) (tr : Trace)
      → IsQsort qsort
      → Accepts kernel
      → (fifo kernel stray qsort fuel [] tr).0 ≡ idle_outcome fuel
  fifo_nil qsort fuel tr sorting accepts =
      fifo_idles kernel stray (λ ps. ps ≡ []) next_proc-nil arrivals-nil accepts qsort fuel [] tr
        (rw (qsort-nil sorting compare) refl)
