-- ===== src/Sjf/First.antt =====
-- SJF at the first arrival: how it ends in the child, and where no process can be made.
pub mod Wait
use mathlib.Core.List.{Mem, mem-map_of_mem}
use os_project.Prelude.{
  ℕ, zero, suc, ◌+◌, ◌≤◌, ◌<◌, ◌≡◌, refl, ap, ◌∙◌, Option, none, List, ◌∷◌, Bool-cases, inl, inr,
  true, false, ltb, lt→ltb, ℤ, pos, pos_part, minus_one, eq_ℤ, ltb_ℤ, map, arith,
}
use os_project.Process.{Process, unstarted}
use os_project.Process.Lost.{AllLost, unstarted-AllLost, least_by-AllLost}
use os_project.Process.Sorting.{Qsort, IsQsort}
use os_project.Process.First.{
  NoneBefore, NoneBefore-All, Arrived, qsort-NoneBefore, qsort_mem, for_each_passes, for_each_exits,
  AtFirst, AtFirst-spend,
}
use os_project.Os.{
  Trace, Kernel, M, ◌>>=◌, say, repeat, returned, print, spin, fork_call, fork_fails,
  affinity_perror, affinity_call, scheduler_call, scheduler_error, called, sched_other, int_max,
}
use os_project.Os.Forks.{Accepts, forks, units}
use os_project.Os.Triple.{Returns, run_rule, Exits, exit_rule, step_exit, Exits-before, weaken_exit}
use os_project.Os.Loop.{Round, again, forever}
use os_project.Os.Waits.{Waits, spend, forks-spend, units-spend, forever_exits}
use os_project.Cpu.{proc_assign_cpu, child_cpu}
use os_project.Sjf.First.Wait.{Same, prepare-Same, loop_exits}
use os_project.Sjf.{
  State, arrive, arrivals, unit_t, switch, run_down, pass, advance, is_over, round, check, child,
  adopt, choose, prepare, loop, leave, cmp, sjf,
}

AtFirst-Same :
    (first spent : ℕ) (tr tr' tr'' : Trace)
    → Same tr tr'
    → AtFirst first spent tr' tr''
    → AtFirst first spent tr tr''
AtFirst-Same first spent tr tr' tr'' same (made, passed) =
    (made ∙ ap suc (same.0), passed ∙ ap (λ n. spent + (first + n)) (same.1))

repeat-spend : (n : ℕ) (tr : Trace) → repeat n unit_t tr ≡ (returned tt, spend 1000000 n tr)
unfolding unit_t
repeat-spend zero tr = refl
repeat-spend (suc n) tr = repeat-spend n (spin 1000000 ∷ tr)

module _ (kernel : Kernel) (stray : Process) where
  module _ (qsort : Qsort) (fuel : ℕ) (proc : List Process) (p : Process) (first : ℕ) (tr : Trace)
      (sorting : IsQsort qsort) (accepts : Accepts kernel) (listed : Mem p proc)
      (arrives : eq_ℤ p.ready (pos first) ≡ true) (none_before : NoneBefore first proc)
      (fits : first ≤ int_max) (enough : first < fuel) where
    -- SJF sorts the table, waits for the first arrival, and exits.
    sjf_exits :
        (code : ℕ) (spent : Process → ℕ)
        → ((t : ℕ) (p' : Process) (tr' : Trace)
            → eq_ℤ p'.ready (pos t) ≡ true
            → Exits (arrive kernel stray t p') tr' code (AtFirst 0 (spent p') tr'))
        → Exits
            (sjf kernel stray qsort fuel proc)
            tr
            code
            (Arrived (map unstarted (qsort cmp proc)) first λ q. AtFirst first (spent q) tr)
    unfolding sjf
    sjf_exits code spent ends =
        step_exit (say called) (λ _. prepare kernel stray >>= entered) refl
          (exit_rule (prepare kernel stray) entered
            (prepare-Same kernel stray accepts (print called ∷ tr))
            λ _ tr' same. Exits-before (loop kernel stray fuel table) (leave kernel stray) (
              weaken_exit
                (loop_exits kernel stray code spent ends table (unstarted p) first
                  (unstarted-AllLost (qsort cmp proc)) (qsort_mem sorting cmp p proc listed) arrives
                  (qsort-NoneBefore sorting cmp first proc none_before) fits fuel tr' enough)
                λ tr'' left. record {
                  entry = left.entry;
                  listed = left.listed;
                  arrives = left.arrives;
                  post = AtFirst-Same first (spent left.entry) tr tr' tr'' same left.post;
                }))
      where
        table : List Process
        table = map unstarted (qsort cmp proc)

        entered : Unit {0} → M (Option State)
        entered _ = loop kernel stray fuel table >>= leave kernel stray

  child_exits :
      ((tr : Trace) → kernel.fork_answer tr ≡ pos 0)
      → (t : ℕ) (p : Process) (tr : Trace) → eq_ℤ p.ready (pos t) ≡ true
      → Exits (arrive kernel stray t p) tr 0 (AtFirst 0 (pos_part p.exec) tr)
  unfolding arrive child
  child_exits zero_answer t p tr arrives = record {
    after = spend 1000000 (pos_part p.exec) (fork_call ∷ tr);
    run = rw (arrives, zero_answer tr, repeat-spend (pos_part p.exec) (fork_call ∷ tr)) refl;
    post = (
      forks-spend 1000000 (pos_part p.exec) (fork_call ∷ tr),
      units-spend 1000000 (pos_part p.exec) (fork_call ∷ tr) ∙ same,
    );
  }
    where
      same : pos_part p.exec + units tr ≡ pos_part p.exec + (0 + units tr)
      same = omega arith

  lost_exits :
      ((tr : Trace) → kernel.fork_answer tr ≡ minus_one)
      → ((tr : Trace) → ltb_ℤ (kernel.affinity_answer minus_one child_cpu tr) (pos 0) ≡ true)
      → (t : ℕ) (p : Process) (tr : Trace) → eq_ℤ p.ready (pos t) ≡ true
      → Exits (arrive kernel stray t p) tr 1 (AtFirst 0 0 tr)
  unfolding arrive adopt proc_assign_cpu
  lost_exits fails refuses t p tr arrives = record {
    after =
        print affinity_perror
        ∷ affinity_call minus_one child_cpu
        ∷ print fork_fails
        ∷ fork_call
        ∷ tr;
    run = rw (arrives, fails tr, refuses (print fork_fails ∷ fork_call ∷ tr)) refl;
    post = (refl, omega arith);
  }

  -- As a child sees it, to which fork answers 0, where the kernel lets the scheduler bind itself to
  -- the first processor, qsort permutes and sorts, an entry of the table is ready at the time first
  -- and none before it, and first fits an int and is below the fuel, SJF exits with 0 at the first
  -- arrival: it has called one fork, and has spent the units of time up to the arrival and those
  -- that an entry of the sorted table which arrives then has to run.
  pub sjf_child :
      (qsort : Qsort) (fuel : ℕ) (proc : List Process) (p : Process) (first : ℕ) (tr : Trace)
      → ((tr' : Trace) → kernel.fork_answer tr' ≡ pos 0)
      → IsQsort qsort
      → Accepts kernel
      → Mem p proc
      → eq_ℤ p.ready (pos first) ≡ true
      → NoneBefore first proc
      → first ≤ int_max
      → first < fuel
      → Exits
          (sjf kernel stray qsort fuel proc)
          tr
          0
          (Arrived (map unstarted (qsort cmp proc)) first λ q. AtFirst first (pos_part q.exec) tr)
  sjf_child qsort fuel proc p first tr zero_answer sorting accepts m now none_before fits enough =
      sjf_exits qsort fuel proc p first tr sorting accepts m now none_before fits enough 0
        (λ q. pos_part q.exec) (child_exits zero_answer)

  -- Where every fork answers -1, the kernel refuses the second processor to the pid -1 and lets the
  -- scheduler bind itself to the first, qsort permutes and sorts, an entry of the table is ready at
  -- the time first and none before it, and first fits an int and is below the fuel, SJF exits with
  -- 1 at the first arrival, after that many units of time and one fork.
  pub sjf_forkless :
      (qsort : Qsort) (fuel : ℕ) (proc : List Process) (p : Process) (first : ℕ) (tr : Trace)
      → ((tr' : Trace) → kernel.fork_answer tr' ≡ minus_one)
      → ((tr' : Trace) → ltb_ℤ (kernel.affinity_answer minus_one child_cpu tr') (pos 0) ≡ true)
      → IsQsort qsort
      → Accepts kernel
      → Mem p proc
      → eq_ℤ p.ready (pos first) ≡ true
      → NoneBefore first proc
      → first ≤ int_max
      → first < fuel
      → Exits (sjf kernel stray qsort fuel proc) tr 1 (AtFirst first 0 tr)
  sjf_forkless qsort fuel proc p first tr fails refuses sorting accepts m now none_before fits
        enough =
      weaken_exit
        (sjf_exits qsort fuel proc p first tr sorting accepts m now none_before fits enough 1
          (λ _. 0) (lost_exits fails refuses))
        λ tr' left. left.post
