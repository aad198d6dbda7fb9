-- ===== src/Rr/Control/Laws.antt =====
-- What the control functions return to the scheduler's loop, and what shows of them in the trace.
use os_project.Prelude.{
  ℕ, ◌+◌, ◌≡◌, refl, ◌++◌, List, [], ◌∷◌, false, Bool-cases, inl, inr, ℤ, pos, minus_one, eq_ℤ,
  ltb_ℤ, if◌then◌else◌, arith,
}
use os_project.Process.{Name, Process}
use os_project.Os.{
  Trace, Kernel, IsReliable, ◌>>◌, ◌>>=◌, pure, say, print, spin, finish_at, Policy,
  sched_setscheduler, sched_other, sched_idle, scheduler_call, affinity_call, fork_call,
  scheduler_error,
}
use os_project.Os.Triple.{Returns}
use os_project.Cpu.{child_cpu}
use os_project.Cpu.Laws.{proc_assign_cpu_run}
use os_project.Rr.Control.{proc_exec, proc_block, proc_wakeup}

-- The units of time that have passed, and the names and times of the lines `Finish`.
abbrev pub seen : Trace → ℕ × List (Name × ℕ)
seen [] = (0, [])
seen (spin n ∷ tr) = ((seen tr).0 + 1, (seen tr).1)
seen (print (finish_at name pid time) ∷ tr) = ((seen tr).0, (seen tr).1 ++ (name, time) ∷ [])
seen (_ ∷ tr) = seen tr

abbrev pub Quiet : {A : Type 0} → Trace → A → Trace → Type 0
Quiet tr a tr' = seen tr' ≡ seen tr

module _ (kernel : Kernel) where
  -- A call of `sched_setscheduler` whose failure is reported.
  reschedule-Quiet :
      (pid : ℤ) (policy : Policy) (tr : Trace)
      → Returns
          (sched_setscheduler kernel pid policy 0 >>= λ ret.
            if ltb_ℤ ret (pos 0) then (say scheduler_error >> pure minus_one) else pure ret)
          tr
          (Quiet tr)
  reschedule-Quiet pid policy tr =
      let answer = kernel.scheduler_answer pid policy 0 tr in
      let called = scheduler_call pid policy 0 ∷ tr in
      elim (Bool-cases (ltb_ℤ answer (pos 0))) [
        | inl failed ↦ record {
          value = minus_one;
          after = print scheduler_error ∷ called;
          run = rw failed;
          post = refl;
        }
        | inr fine ↦ record { value = answer; after = called; run = rw fine; post = refl }
      ]

  pub proc_wakeup-Quiet : (pid : ℤ) (tr : Trace) → Returns (proc_wakeup kernel pid) tr (Quiet tr)
  unfolding proc_wakeup
  proc_wakeup-Quiet pid tr = reschedule-Quiet pid sched_other tr

  pub proc_block-Quiet : (pid : ℤ) (tr : Trace) → Returns (proc_block kernel pid) tr (Quiet tr)
  unfolding proc_block
  proc_block-Quiet pid tr = reschedule-Quiet pid sched_idle tr

  pub proc_exec-Quiet :
      (p : Process) (tr : Trace)
      → IsReliable kernel
      → Returns
          (proc_exec kernel p)
          tr
          (λ pid tr'. (eq_ℤ pid minus_one ≡ false) × (seen tr' ≡ seen tr))
  unfolding proc_exec
  proc_exec-Quiet p tr reliable =
      let pid = kernel.fork_answer tr in
      record {
        value = pid;
        after = affinity_call pid child_cpu ∷ fork_call ∷ tr;
        run = ground (
          arith,
          reliable.fork_ok tr,
          proc_assign_cpu_run kernel pid child_cpu (fork_call ∷ tr) reliable (omega arith),
        );
        post = (ground (arith, reliable.fork_ok tr), refl);
      }
