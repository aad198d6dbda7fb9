-- ===== src/Os/Awake/Calls.antt =====
-- The calls that change a policy.
use os_project.Prelude.{
  ◌≡◌, ◌⊎◌, inl, inr, ◌∷◌, Bool-cases, ℤ, pos, minus_one, ltb_ℤ, if◌then◌else◌,
}
use os_project.Os.{
  Trace, Kernel, Policy, Message, ◌>>=◌, ◌>>◌, pure, say, scheduler_call, sched_idle, sched_other,
  sched_setscheduler,
}
use os_project.Os.Keeps.{Keeps}
use os_project.Os.Awake.{OneAwake, Within, Within-high, Within-low}

module _ (kernel : Kernel) (me : ℤ) where
  -- A call whose failure is reported by the line `m`.
  reschedule_keeps :
      (Q : ℤ → Type 0) (pid : ℤ) (policy : Policy) (m : Message) (tr : Trace)
      → OneAwake me sched_other tr
      → Within me sched_other Q (scheduler_call pid policy 0 ∷ tr)
      → Keeps
          (OneAwake me sched_other)
          (sched_setscheduler kernel pid policy 0 >>= λ ret.
            if ltb_ℤ ret (pos 0) then (say m >> pure minus_one) else pure ret)
          tr
          (λ _ tr'. Within me sched_other Q tr')
  reschedule_keeps Q pid policy m tr s within =
      elim (Bool-cases (ltb_ℤ (kernel.scheduler_answer pid policy 0 tr) (pos 0))) [
        | inl failed ↦ record { safe = rw failed s; meets = rw failed within }
        | inr fine ↦ record { safe = rw fine s; meets = rw fine within }
      ]

  pub wakeup_keeps :
      (Q : ℤ → Type 0) (pid : ℤ) (m : Message) (tr : Trace)
      → OneAwake me sched_other tr
      → Within me sched_other Q tr
      → Keeps
          (OneAwake me sched_other)
          (sched_setscheduler kernel pid sched_other 0 >>= λ ret.
            if ltb_ℤ ret (pos 0) then (say m >> pure minus_one) else pure ret)
          tr
          (λ _ tr'. Within me sched_other (λ a. (a ≡ pid) ⊎ Q a) tr')
  wakeup_keeps Q pid m tr s within =
      reschedule_keeps (λ a. (a ≡ pid) ⊎ Q a) pid sched_other m tr s
        (Within-high me sched_other Q tr within pid 0)

  pub block_keeps :
      (Q : ℤ → Type 0) (pid : ℤ) (m : Message) (tr : Trace)
      → OneAwake me sched_other tr
      → Within me sched_other Q tr
      → Keeps
          (OneAwake me sched_other)
          (sched_setscheduler kernel pid sched_idle 0 >>= λ ret.
            if ltb_ℤ ret (pos 0) then (say m >> pure minus_one) else pure ret)
          tr
          (λ _ tr'. Within me sched_other (λ a. Q a × ¬ (a ≡ pid)) tr')
  block_keeps Q pid m tr s within =
      reschedule_keeps (λ a. Q a × ¬ (a ≡ pid)) pid sched_idle m tr s
        (Within-low me sched_other Q tr within sched_idle (λ e. cc) pid 0)
