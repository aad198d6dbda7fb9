-- ===== src/Cpu/Awake.antt =====
-- `proc_assign_cpu`: what it does to the policies, which is nothing.
use os_project.Prelude.{ltb, refl, ◌∷◌, ℕ, ℤ, pos, minus_one, ltb_ℤ, if◌then◌else◌}
use os_project.Os.{
  Trace, Kernel, M, Policy, ◌>>=◌, ◌>>◌, pure, exit, say, affinity_call, sched_setaffinity,
  core_error, affinity_perror,
}
use os_project.Os.Keeps.{Keeps, pure_keeps, run_keeps, step_keeps, if_keeps}
use os_project.Os.Awake.{OneAwake, Within}
use os_project.Cpu.{proc_assign_cpu, cpu_set_size}

module _ (kernel : Kernel) (me : ℤ) (high : Policy) where
  pub proc_assign_cpu_keeps :
      (Q : ℤ → Type 0) (pid : ℤ) (core : ℕ) (tr : Trace)
      → OneAwake me high tr
      → Within me high Q tr
      → Keeps
          (OneAwake me high)
          (proc_assign_cpu kernel pid core)
          tr
          (λ _ tr'. Within me high Q tr')
  unfolding proc_assign_cpu
  proc_assign_cpu_keeps Q pid core tr s within =
      if_keeps (OneAwake me high) (ltb cpu_set_size core) (say core_error >> pure minus_one) assign
        tr (λ _. run_keeps (OneAwake me high) (say core_error >> pure minus_one) tr s within)
        λ _. step_keeps (OneAwake me high) (sched_setaffinity kernel pid core) check refl (
          if_keeps (OneAwake me high) (ltb_ℤ (kernel.affinity_answer pid core tr) (pos 0)) fail
            (pure (pos 0)) (affinity_call pid core ∷ tr)
            (λ _. run_keeps (OneAwake me high) fail (affinity_call pid core ∷ tr) s tt)
            (λ _. pure_keeps (OneAwake me high) (pos 0) (affinity_call pid core ∷ tr) s within))
    where
      fail : M ℤ
      fail = say affinity_perror >> exit 1

      check : ℤ → M ℤ
      check answer = if ltb_ℤ answer (pos 0) then fail else pure (pos 0)

      assign : M ℤ
      assign = sched_setaffinity kernel pid core >>= check
