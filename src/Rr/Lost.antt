-- ===== src/Rr/Lost.antt =====
-- RR where no process can be made, and RR on an empty table.
use os_project.Prelude.{
  ℕ, suc, ◌≡◌, refl, none, List, [], ◌∷◌, Bool-cases, inl, inr, ℤ, pos, minus_one, eq_ℤ, ltb_ℤ,
}
use os_project.Process.{Process}
use os_project.Process.Lost.{AllLost, StaysLost, unstarted-AllLost, for_each-AllLost}
use os_project.Process.Sorting.{Qsort, IsQsort, qsort-nil}
use os_project.Os.{
  Trace, Kernel, M, ◌>>=◌, ◌>>◌, pure, returned, fork_call, print, fork_error, sched_idle, say,
  ready_at,
}
use os_project.Os.Forks.{ForkFails, Accepts, LetsOther}
use os_project.Os.Triple.{Returns, bind_rule, step_rule, pure_rule, run_rule, ends_rule}
use os_project.Os.Loop.{idle_outcome}
use os_project.Rr.Control.{rr_compare, proc_exec, proc_block}
use os_project.Rr.{State, arrive, arrivals, rr_next, first_ready, rr_main}
use os_project.Rr.Idle.{rr_main_idles}

module _ (kernel : Kernel) (stray : Process) where
  proc_exec_lost :
      ForkFails kernel
      → (p : Process) (tr : Trace)
      → proc_exec kernel p tr ≡ (returned minus_one, print fork_error ∷ fork_call ∷ tr)
  unfolding proc_exec
  proc_exec_lost fails p tr = rw (fails tr) refl

  proc_block_ends : (pid : ℤ) (tr : Trace) → Returns (proc_block kernel pid) tr (λ _ _. Unit)
  unfolding proc_block
  proc_block_ends pid tr =
      elim (Bool-cases (ltb_ℤ (kernel.scheduler_answer pid sched_idle 0 tr) (pos 0))) [
        | inl failed ↦ ends_rule (proc_block kernel pid) tr (rw failed tt)
        | inr fine ↦ ends_rule (proc_block kernel pid) tr (rw fine tt)
      ]

  arrive-StaysLost :
      ForkFails kernel
      → (now : ℕ) (p : Process) (tr : Trace)
      → Returns (arrive kernel stray now p) tr (λ p' _. StaysLost p p')
  unfolding arrive
  arrive-StaysLost fails now p tr = elim (Bool-cases (eq_ℤ p.ready (pos now))) [
    | inl arrives ↦ rw arrives (
        step_rule (proc_exec kernel p) blocked (proc_exec_lost fails p tr) (
          bind_rule (proc_block kernel minus_one) (λ _. announce minus_one)
            (proc_block_ends minus_one (print fork_error ∷ fork_call ∷ tr))
            λ _ tr' _. run_rule (announce minus_one) refl (λ _. refl)))
    | inr later ↦ rw later (pure_rule p tr (λ lost. lost))
  ]
    where
      announce : ℤ → M Process
      announce pid = say (ready_at p.name now) >> pure (record p { pid = pid })

      blocked : ℤ → M Process
      blocked pid = proc_block kernel pid >>= λ _. announce pid

  arrivals-AllLost :
      ForkFails kernel
      → (now : ℕ) (ps : List Process) (tr : Trace) → AllLost ps
      → Returns (arrivals kernel stray now ps) tr (λ ps' _. AllLost ps')
  unfolding arrivals
  arrivals-AllLost fails now =
      for_each-AllLost (arrive kernel stray now) (arrive-StaysLost fails now)

  first_ready_lost : (i : ℕ) (ps : List Process) → AllLost ps → first_ready i ps ≡ none
  unfolding first_ready
  first_ready_lost i [] lost = refl
  first_ready_lost i (p ∷ ps) lost = rw (lost.0) (first_ready_lost (suc i) ps lost.1)

  rr_next_lost :
      (s : State) (tr : Trace)
      → AllLost s.proc
      → s.running ≡ none
      → rr_next kernel stray s tr ≡ (returned none, tr)
  unfolding rr_next
  rr_next_lost s tr lost vacant = rw (vacant, rr_next) (rw (first_ready_lost 0 s.proc lost) refl)

  -- Where every fork fails and the kernel lets the scheduler bind itself to the first processor and
  -- give itself SCHED_OTHER, RR is still in its loop after as many rounds as it has fuel, up to the
  -- largest int, and overflows its clock with more, whatever the table and the function for qsort:
  -- it neither breaks out of the loop nor exits.
  pub rr_main_forkless :
      (qsort : Qsort) (fuel : ℕ) (proc : List Process) (tr : Trace)
      → ForkFails kernel
      → Accepts kernel
      → LetsOther kernel
      → (rr_main kernel stray qsort fuel proc tr).0 ≡ idle_outcome fuel
  rr_main_forkless qsort fuel proc tr fails accepts lets =
      rr_main_idles kernel stray AllLost rr_next_lost (arrivals-AllLost fails) accepts lets qsort
        fuel proc tr (unstarted-AllLost (qsort rr_compare proc))

  arrivals-nil :
      (now : ℕ) (ps : List Process) (tr : Trace)
      → ps ≡ []
      → Returns (arrivals kernel stray now ps) tr (λ ps' _. ps' ≡ [])
  unfolding arrivals
  arrivals-nil now ps tr empty = rw empty (pure_rule [] tr refl)

  rr_next-nil :
      (s : State) (tr : Trace)
      → s.proc ≡ []
      → s.running ≡ none
      → rr_next kernel stray s tr ≡ (returned none, tr)
  rr_next-nil s tr empty vacant = rr_next_lost s tr (rw empty tt) vacant

  -- On an empty table, where the kernel lets the scheduler bind itself to the first processor and
  -- give itself SCHED_OTHER, and qsort permutes and sorts, RR is still in its loop after as many
  -- rounds as it has fuel, up to the largest int, and overflows its clock with more: it neither
  -- breaks out of the loop nor exits.
  pub rr_main_nil :
      (qsort : Qsort) (fuel : ℕ) (tr : Trace)
      → IsQsort qsort
      → Accepts kernel
      → LetsOther kernel
      → (rr_main kernel stray qsort fuel [] tr).0 ≡ idle_outcome fuel
  rr_main_nil qsort fuel tr sorting accepts lets =
      rr_main_idles kernel stray (λ ps. ps ≡ []) rr_next-nil arrivals-nil accepts lets qsort fuel []
        tr (rw (qsort-nil sorting rr_compare) refl)
