-- ===== src/Psjf/Refused.antt =====
-- PSJF where the kernel refuses the processor.
use os_project.Prelude.{ℕ, refl, List, [], ◌∷◌}
use os_project.Process.{Process}
use os_project.Os.{Kernel, print, affinity_call, affinity_perror}
use os_project.Os.Triple.{Exits}
use os_project.Cpu.{proc_assign_cpu, parent_cpu}
use os_project.Os.Forks.{NoFork, Refuses}
use os_project.Psjf.{psjf}

module _ (kernel : Kernel) (stray : Process) (refused : Refuses kernel) where
  pub psjf-Exits :
      (fuel : ℕ) (proc : List Process) → Exits (psjf kernel stray fuel proc) [] 1 NoFork
  unfolding psjf proc_assign_cpu
  psjf-Exits fuel proc = record {
    after = print affinity_perror ∷ affinity_call (kernel.own_pid []) parent_cpu ∷ [];
    run = rw (refused []) refl;
    post = ((λ e. cc), ((λ e. cc), tt));
  }
