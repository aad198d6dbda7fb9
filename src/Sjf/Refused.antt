-- ===== src/Sjf/Refused.antt =====
-- SJF where the kernel refuses the processor.
use os_project.Prelude.{ℕ, refl, List, [], ◌∷◌}
use os_project.Process.{Process}
use os_project.Process.Sorting.{Qsort}
use os_project.Os.{Kernel, print, called, affinity_call, affinity_perror}
use os_project.Os.Triple.{Exits}
use os_project.Cpu.{proc_assign_cpu, parent_cpu}
use os_project.Os.Forks.{NoFork, Refuses}
use os_project.Sjf.{sjf, prepare}

module _ (kernel : Kernel) (stray : Process) (refused : Refuses kernel) where
  pub sjf-Exits :
      (qsort : Qsort) (fuel : ℕ) (proc : List Process)
      → Exits (sjf kernel stray qsort fuel proc) [] 1 NoFork
  unfolding sjf prepare proc_assign_cpu
  sjf-Exits qsort fuel proc = record {
    after =
        print affinity_perror
        ∷ affinity_call (kernel.own_pid (print called ∷ [])) parent_cpu
        ∷ print called
        ∷ [];
    run = rw (refused (print called ∷ [])) refl;
    post = ((λ e. cc), ((λ e. cc), ((λ e. cc), tt)));
  }
