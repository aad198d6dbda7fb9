-- ===== src/Psjf/First.antt =====
-- PSJF at the first arrival: how it ends in the child, and where no process can be made.
use mathlib.Core.List.{Mem, not-mem-nil}
use os_project.Prelude.{
  ℕ, zero, suc, ◌+◌, ◌≤◌, ◌<◌, ◌≡◌, refl, ap, ◌∙◌, Option, List, [], ◌∷◌, true, false, ◌==◌, lt→ltb,
  ℤ, pos, negsuc, pos_part, minus_one, eq_ℤ, ltb_ℤ, length, arith,
}
use os_project.Process.{Process}
use os_project.Process.First.{
  NoneBefore, NoneBefore-All, Arrived, for_each_passes, for_each_exits, AtFirst, AtFirst-spend,
}
use os_project.Os.{
  Trace, Kernel, M, ◌>>=◌, ◌>>◌, pure, increment, getpid, repeat, returned, print, spin, fork_call,
  born, finished, affinity_perror, affinity_call, int_max,
}
use os_project.Os.Forks.{Accepts, units}
use os_project.Os.Triple.{Returns, run_rule, Exits, step_exit, Exits-before, weaken_exit}
use os_project.Os.Loop.{Round, again, forever}
use os_project.Os.Waits.{Waits, spend, forks-spend, units-spend, forever_exits}
use os_project.Cpu.{proc_assign_cpu, parent_cpu, child_cpu}
use os_project.Psjf.Order.{NoneMarked}
use os_project.Psjf.{
  State, unit_time, child, process_ready, arrive, arrivals, some_process_is_ready, select, tick,
  round, psjf,
}

eq_ℤ_comm : (a b : ℤ) → eq_ℤ a b ≡ eq_ℤ b a
eq_ℤ_comm (pos a) (pos b) = ground arith
eq_ℤ_comm (pos a) (negsuc b) = refl
eq_ℤ_comm (negsuc a) (pos b) = refl
eq_ℤ_comm (negsuc a) (negsuc b) = ground arith

repeat-spend : (n : ℕ) (tr : Trace) → repeat n unit_time tr ≡ (returned tt, spend 10000000 n tr)
unfolding unit_time
repeat-spend zero tr = refl
repeat-spend (suc n) tr = repeat-spend n (spin 10000000 ∷ tr)

unready : (ps : List Process) → NoneMarked ps → some_process_is_ready ps ≡ false
unfolding some_process_is_ready
unready [] unmarked = refl
unready (p ∷ ps) unmarked = rw (unmarked.0) (unready ps unmarked.1)

not_over : (q : Process) (ps : List Process) → Mem q ps → (0 == length ps) ≡ false
not_over q [] m = absurd (not-mem-nil m)
not_over q (p ∷ ps) m = ground arith

module _ (kernel : Kernel) (stray : Process) where
  arrive_passes :
      (t : ℕ) (p : Process) (tr : Trace)
      → eq_ℤ p.ready (pos t) ≡ false
      → arrive kernel t p tr ≡ (returned p, tr)
  unfolding arrive
  arrive_passes t p tr later = rw (eq_ℤ_comm (pos t) p.ready ∙ later) refl

  -- An arrival ends the program.
  module _ (code : ℕ) (spent : Process → ℕ)
      (ends : (t : ℕ) (p : Process) (tr : Trace)
        → eq_ℤ p.ready (pos t) ≡ true
        → Exits (arrive kernel t p) tr code (AtFirst 0 (spent p) tr))
      (ps : List Process) (q : Process) (first : ℕ) (unmarked : NoneMarked ps) (listed : Mem q ps)
      (arrives : eq_ℤ q.ready (pos first) ≡ true) (none_before : NoneBefore first ps)
      (fits : first ≤ int_max) where
    -- The state at the time `t`, before the first arrival.
    abbrev idle : ℕ → State
    idle t = record {
      proc = ps;
      time = t;
      pre_running = minus_one;
      running = minus_one;
      finished_process = 0;
    }

    abbrev Waiting : ℕ → State → Type 0
    Waiting t s = s ≡ idle t

    -- What the exit at the first arrival leaves behind.
    abbrev Left : ℕ → Trace → Trace → Type 0
    Left before tr = Arrived ps first (λ p. AtFirst before (spent p) tr)

    arrivals_passes : (t : ℕ) (tr : Trace) → t < first → arrivals kernel t ps tr ≡ (returned ps, tr)
    unfolding arrivals
    arrivals_passes t tr lt =
        for_each_passes (arrive kernel t) t (arrive_passes t) ps tr
          (NoneBefore-All t first ps lt none_before)

    round_passes :
        (t : ℕ) (tr : Trace)
        → t < first
        → round kernel stray (idle t) tr ≡ (returned (again (idle (t + 1))), spin 10000000 ∷ tr)
    unfolding round tick select unit_time
    round_passes t tr lt =
        rw
          (
            not_over q ps listed,
            arrivals_passes t tr lt,
            unready ps unmarked,
            lt→ltb t int_max (omega arith),
          )
          refl

    round-Waits :
        (t : ℕ) (s : State) (tr : Trace)
        → t < first
        → Waiting t s
        → Returns
            (round kernel stray s)
            tr
            (λ r tr'. Waits Waiting t r × (tr' ≡ spin 10000000 ∷ tr))
    round-Waits t s tr lt e =
        let next : t + 1 ≡ suc t = omega arith in
        rw e (run_rule (round kernel stray (idle t)) (round_passes t tr lt) (ap idle next, refl))

    arrivals_exits : (tr : Trace) → Exits (arrivals kernel first ps) tr code (Left 0 tr)
    unfolding arrivals
    arrivals_exits tr =
        for_each_exits (arrive kernel first) first (arrive_passes first) code
          (λ p. AtFirst 0 (spent p)) (ends first) q ps tr arrives listed

    tick_exits : (tr : Trace) → Exits (tick kernel stray (idle first)) tr code (Left 0 tr)
    unfolding tick
    tick_exits tr = Exits-before (arrivals kernel first ps) selected (arrivals_exits tr)
      where
        selected : List Process → M (Round State)
        selected ps' = do
          s ← select kernel stray (record (idle first) { proc = ps' })
          unit_time
          time ← increment s.time
          pure (again (record s { time = time }))

    round_exits :
        (s : State) (tr : Trace)
        → Waiting first s
        → Exits (round kernel stray s) tr code (Left 0 tr)
    unfolding round
    round_exits s tr e = rw e (rw (not_over q ps listed) (tick_exits tr))

    -- PSJF waits for the first arrival, and exits.
    psjf_exits :
        (fuel : ℕ) (tr : Trace)
        → Accepts kernel
        → first < fuel
        → Exits (psjf kernel stray fuel ps) tr code (Left first tr)
    unfolding psjf proc_assign_cpu
    psjf_exits fuel tr accepts enough =
        weaken_exit
          (step_exit (getpid kernel) entered refl (
            step_exit (proc_assign_cpu kernel (kernel.own_pid tr) parent_cpu) (λ _. run)
              {tr' = bound} {a = pos 0} (rw (accepts tr) refl)
              (forever_exits Waiting 10000000 first code (Left 0) (round kernel stray) round-Waits
                round_exits first fuel 0 (idle 0) bound enough (omega arith) refl)))
          λ tr' left. record {
            entry = left.entry;
            listed = left.listed;
            arrives = left.arrives;
            post = AtFirst-spend 10000000 first (spent left.entry) bound tr' left.post;
          }
      where
        bound : Trace
        bound = affinity_call (kernel.own_pid tr) parent_cpu ∷ tr

        run : M (Option State)
        run = forever fuel (round kernel stray) (idle 0)

        entered : ℤ → M (Option State)
        entered me = proc_assign_cpu kernel me parent_cpu >>= λ _. run

  child_exits :
      ((tr : Trace) → kernel.fork_answer tr ≡ pos 0)
      → (t : ℕ) (p : Process) (tr : Trace) → eq_ℤ p.ready (pos t) ≡ true
      → Exits (arrive kernel t p) tr 0 (AtFirst 0 (pos_part p.exec) tr)
  unfolding arrive process_ready child
  child_exits zero_answer t p tr arrives = record {
    after = print (finished p.name) ∷ spend 10000000 (pos_part p.exec) made;
    run =
        rw
          (eq_ℤ_comm (pos t) p.ready ∙ arrives, zero_answer tr, repeat-spend (pos_part p.exec) made)
          refl;
    post = (
      forks-spend 10000000 (pos_part p.exec) made,
      units-spend 10000000 (pos_part p.exec) made ∙ same,
    );
  }
    where
      made : Trace
      made = print (born p.name) ∷ fork_call ∷ tr

      same : pos_part p.exec + units tr ≡ pos_part p.exec + (0 + units tr)
      same = omega arith

  -- As a child sees it, to which fork answers 0, where the kernel lets the scheduler bind itself to
  -- the first processor, no entry is marked as waiting, an entry of the table is ready at the time
  -- first and none before it, and first fits an int and is below the fuel, PSJF exits with 0 at the
  -- first arrival: it has called one fork, and has spent the units of time up to the arrival and
  -- those that an entry which arrives then has to run.
  pub psjf_child :
      (fuel : ℕ) (proc : List Process) (p : Process) (first : ℕ) (tr : Trace)
      → ((tr' : Trace) → kernel.fork_answer tr' ≡ pos 0)
      → Accepts kernel
      → NoneMarked proc
      → Mem p proc
      → eq_ℤ p.ready (pos first) ≡ true
      → NoneBefore first proc
      → first ≤ int_max
      → first < fuel
      → Exits
          (psjf kernel stray fuel proc)
          tr
          0
          (Arrived proc first λ q. AtFirst first (pos_part q.exec) tr)
  psjf_child fuel proc p first tr zero_answer accepts unmarked m now none_before fits enough =
      psjf_exits 0 (λ q. pos_part q.exec) (child_exits zero_answer) proc p first unmarked m now
        none_before fits fuel tr accepts enough

  lost_exits :
      ((tr : Trace) → kernel.fork_answer tr ≡ minus_one)
      → ((tr : Trace) → ltb_ℤ (kernel.affinity_answer minus_one child_cpu tr) (pos 0) ≡ true)
      → (t : ℕ) (p : Process) (tr : Trace) → eq_ℤ p.ready (pos t) ≡ true
      → Exits (arrive kernel t p) tr 1 (AtFirst 0 0 tr)
  unfolding arrive process_ready proc_assign_cpu
  lost_exits fails refuses t p tr arrives = record {
    after = print affinity_perror ∷ affinity_call minus_one child_cpu ∷ fork_call ∷ tr;
    run = rw (eq_ℤ_comm (pos t) p.ready ∙ arrives, fails tr, refuses (fork_call ∷ tr)) refl;
    post = (refl, omega arith);
  }

  -- Where every fork answers -1, the kernel refuses the second processor to the pid -1 and lets the
  -- scheduler bind itself to the first, no entry is marked as waiting, an entry of the table is
  -- ready at the time first and none before it, and first fits an int and is below the fuel, PSJF
  -- exits with 1 at the first arrival, after that many units of time and one fork.
  pub psjf_forkless :
      (fuel : ℕ) (proc : List Process) (p : Process) (first : ℕ) (tr : Trace)
      → ((tr' : Trace) → kernel.fork_answer tr' ≡ minus_one)
      → ((tr' : Trace) → ltb_ℤ (kernel.affinity_answer minus_one child_cpu tr') (pos 0) ≡ true)
      → Accepts kernel
      → NoneMarked proc
      → Mem p proc
      → eq_ℤ p.ready (pos first) ≡ true
      → NoneBefore first proc
      → first ≤ int_max
      → first < fuel
      → Exits (psjf kernel stray fuel proc) tr 1 (AtFirst first 0 tr)
  psjf_forkless fuel proc p first tr fails refuses accepts unmarked m now none_before fits enough =
      weaken_exit
        (psjf_exits 1 (λ _. 0) (lost_exits fails refuses) proc p first unmarked m now none_before
          fits fuel tr accepts enough)
        λ tr' left. left.post
