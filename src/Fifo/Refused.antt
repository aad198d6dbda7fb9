-- ===== src/Fifo/Refused.antt =====
-- FIFO where the kernel refuses the processor.
use os_project.Prelude.{ℕ, refl, Option, none, List, [], ◌∷◌, map}
use os_project.Process.{Process, unstarted}
use os_project.Process.Sorting.{Qsort}
use os_project.Os.{Trace, Kernel, M, ◌>>◌, say, print, table_row, affinity_call, affinity_error}
use os_project.Os.Loop.{forever}
use os_project.Os.Triple.{Returns, step_rule, pure_rule, Exits, Exits-before, exit_rule}
use os_project.Os.Forks.{NoFork, Refuses}
use os_project.Fifo.{State, round, fifo, print_table, prepare}
use os_project.Fifo.Control.{compare, proc_assign_cpu, parent_cpu}

print_table-NoFork :
    (kernel : Kernel) (stray : Process) (ps : List Process) (tr : Trace)
    → NoFork tr
    → Returns (print_table kernel stray ps) tr (λ _. NoFork)
unfolding print_table
print_table-NoFork kernel stray [] tr before = pure_rule tt tr before
print_table-NoFork kernel stray (p ∷ ps) tr before =
    step_rule (say (table_row p.name p.ready p.exec)) (λ _. print_table kernel stray ps) refl
      (print_table-NoFork kernel stray ps (print (table_row p.name p.ready p.exec) ∷ tr)
        ((λ e. cc), before))

module _ (kernel : Kernel) (stray : Process) (refused : Refuses kernel) where
  prepare-Exits : (tr : Trace) → NoFork tr → Exits (prepare kernel stray) tr 1 NoFork
  unfolding prepare proc_assign_cpu
  prepare-Exits tr before = record {
    after = print affinity_error ∷ affinity_call (kernel.own_pid tr) parent_cpu ∷ tr;
    run = rw (refused tr) refl;
    post = ((λ e. cc), ((λ e. cc), before));
  }

  pub fifo-Exits :
      (qsort : Qsort) (fuel : ℕ) (proc : List Process)
      → Exits (fifo kernel stray qsort fuel proc) [] 1 NoFork
  unfolding fifo
  fifo-Exits qsort fuel proc =
      exit_rule (print_table kernel stray (qsort compare proc)) (λ _. prepare kernel stray >> run)
        (print_table-NoFork kernel stray (qsort compare proc) [] tt)
        λ _ tr before. Exits-before (prepare kernel stray) (λ _. run) (prepare-Exits tr before)
    where
      run : M (Option State)
      run = forever fuel (round kernel stray) (record {
        proc = map unstarted (qsort compare proc);
        running = none;
        finish = 0;
        time_cnt = 0;
      })
