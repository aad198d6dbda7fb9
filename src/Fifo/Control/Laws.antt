-- ===== src/Fifo/Control/Laws.antt =====
-- What the control functions return to the scheduler's loop, and which endings they report.
use os_project.Prelude.{
  ℕ, ◌≡◌, refl, ◌++◌, List, [], ◌∷◌, false, Bool-cases, inl, inr, ℤ, pos, minus_one, eq_ℤ, ltb_ℤ,
  arith,
}
use os_project.Process.{Name, Process}
use os_project.Os.{
  Trace, Kernel, IsReliable, print, ended, sched_other, sched_idle, scheduler_call, affinity_call,
  fork_call, wakeup_error, idle_error,
}
use os_project.Os.Triple.{Returns}
use os_project.Fifo.Control.{child_cpu, proc_assign_cpu, proc_wakeup, proc_exec, proc_block}

-- The lines `process %s ended`, the oldest first.
abbrev pub endings : Trace → List (Name × ℕ)
endings [] = []
endings (print (ended name time) ∷ tr) = endings tr ++ (name, time) ∷ []
endings (_ ∷ tr) = endings tr

abbrev pub Quiet : {A : Type 0} → Trace → A → Trace → Type 0
Quiet tr a tr' = endings tr' ≡ endings tr

module _ (kernel : Kernel) where
  pub proc_wakeup-Quiet : (pid : ℤ) (tr : Trace) → Returns (proc_wakeup kernel pid) tr (Quiet tr)
  unfolding proc_wakeup
  proc_wakeup-Quiet pid tr =
      let answer = kernel.scheduler_answer pid sched_other 0 tr in
      let called = scheduler_call pid sched_other 0 ∷ tr in
      elim (Bool-cases (ltb_ℤ answer (pos 0))) [
        | inl failed ↦ record {
          value = minus_one;
          after = print wakeup_error ∷ called;
          run = rw failed;
          post = refl;
        }
        | inr done ↦ record { value = answer; after = called; run = rw done; post = refl }
      ]

  pub proc_block-Quiet : (pid : ℤ) (tr : Trace) → Returns (proc_block kernel pid) tr (Quiet tr)
  unfolding proc_block
  proc_block-Quiet pid tr =
      let answer = kernel.scheduler_answer pid sched_idle 0 tr in
      let called = scheduler_call pid sched_idle 0 ∷ tr in
      elim (Bool-cases (ltb_ℤ answer (pos 0))) [
        | inl failed ↦ record {
          value = minus_one;
          after = print idle_error ∷ called;
          run = rw failed;
          post = refl;
        }
        | inr done ↦ record { value = answer; after = called; run = rw done; post = refl }
      ]

  module _ (reliable : IsReliable kernel) where
    pub proc_assign_cpu-Quiet :
        (pid : ℤ) (core : ℕ) (tr : Trace) → Returns (proc_assign_cpu kernel pid core) tr (Quiet tr)
    unfolding proc_assign_cpu
    proc_assign_cpu-Quiet pid core tr = record {
      value = pos 0;
      after = affinity_call pid core ∷ tr;
      run = rw (reliable.affinity_ok pid core tr);
      post = refl;
    }

    pub proc_exec-Quiet :
        (p : Process) (time_cnt : ℕ) (tr : Trace)
        → Returns
            (proc_exec kernel p time_cnt)
            tr
            (λ pid tr'. (eq_ℤ pid minus_one ≡ false) × (endings tr' ≡ endings tr))
    unfolding proc_exec
    proc_exec-Quiet p time_cnt tr =
        let pid = kernel.fork_answer tr in
        record {
          value = pid;
          after = affinity_call pid child_cpu ∷ fork_call ∷ tr;
          run =
              ground
                (arith, reliable.fork_ok tr, reliable.affinity_ok pid child_cpu (fork_call ∷ tr));
          post = (ground (arith, reliable.fork_ok tr), refl);
        }
