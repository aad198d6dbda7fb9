-- ===== src/Cpu.antt =====
-- PSJF.c: `proc_assign_cpu`, which SJF.c and RR.c call too.
pub mod Laws
pub mod Awake
use os_project.Prelude.{ℕ, ltb, if◌then◌else◌, ℤ, pos, minus_one, ltb_ℤ}
use os_project.Os.{
  Kernel, M, pure, exit, say, ◌>>=◌, ◌>>◌, sched_setaffinity, core_error, affinity_perror,
}

abbrev pub parent_cpu : ℕ
parent_cpu = 0

abbrev pub child_cpu : ℕ
child_cpu = 1

-- `sizeof(cpu_set_t)`
abbrev pub cpu_set_size : ℕ
cpu_set_size = 128

unfoldable pub proc_assign_cpu : Kernel → ℤ → ℕ → M ℤ
proc_assign_cpu kernel pid core =
    if ltb cpu_set_size core then (say core_error >> pure minus_one) else (do
      answer ← sched_setaffinity kernel pid core
      if ltb_ℤ answer (pos 0) then (say affinity_perror >> exit 1) else pure (pos 0))
