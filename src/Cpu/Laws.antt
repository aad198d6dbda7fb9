-- ===== src/Cpu/Laws.antt =====
-- `proc_assign_cpu` where the kernel reports no error.
use os_project.Prelude.{ℕ, ◌≡◌, ◌≤◌, ◌∷◌, ℤ, pos, le→ltb}
use os_project.Os.{Trace, Kernel, IsReliable, affinity_call, pure}
use os_project.Cpu.{proc_assign_cpu, cpu_set_size}

-- One call, and the answer 0.
pub proc_assign_cpu_run :
    (kernel : Kernel) (pid : ℤ) (core : ℕ) (tr : Trace)
    → IsReliable kernel
    → core ≤ cpu_set_size
    → proc_assign_cpu kernel pid core tr ≡ pure (pos 0) (affinity_call pid core ∷ tr)
unfolding proc_assign_cpu
proc_assign_cpu_run kernel pid core tr reliable small =
    rw (le→ltb cpu_set_size core small, reliable.affinity_ok pid core tr)
