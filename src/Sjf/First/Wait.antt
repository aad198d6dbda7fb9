-- ===== src/Sjf/First/Wait.antt =====
-- SJF's preparation, and its loop where the first arrival is to end the program.
use mathlib.Core.List.{Mem}
use os_project.Prelude.{
  ℕ, suc, ◌+◌, ◌≤◌, ◌<◌, ◌≡◌, refl, ap, none, List, ◌∷◌, Bool-cases, inl, inr, true, false, lt→ltb,
  ℤ, pos, eq_ℤ, ltb_ℤ, arith,
}
use os_project.Process.{Process}
use os_project.Process.Lost.{AllLost, least_by-AllLost}
use os_project.Process.First.{
  NoneBefore, NoneBefore-All, Arrived, for_each_passes, for_each_exits, AtFirst, AtFirst-spend,
}
use os_project.Os.{
  Trace, Kernel, M, ◌>>=◌, returned, print, spin, affinity_call, scheduler_call, scheduler_error,
  sched_other, int_max,
}
use os_project.Os.Forks.{Accepts, forks, units}
use os_project.Os.Triple.{Returns, run_rule, Exits, Exits-before, weaken_exit}
use os_project.Os.Loop.{Round, again}
use os_project.Os.Waits.{Waits, forever_exits}
use os_project.Cpu.{proc_assign_cpu}
use os_project.Sjf.{
  State, arrive, arrivals, unit_t, switch, run_down, pass, advance, is_over, round, check, choose,
  prepare, loop,
}

-- `prepare` has made no process and spent no time.
abbrev pub Same : Trace → Trace → Type 0
Same tr tr' = (forks tr' ≡ forks tr) × (units tr' ≡ units tr)

module _ (kernel : Kernel) (stray : Process) where
  pub prepare-Same :
      Accepts kernel → (tr : Trace) → Returns (prepare kernel stray) tr (λ _. Same tr)
  unfolding prepare proc_assign_cpu check
  prepare-Same accepts tr =
      elim (Bool-cases (ltb_ℤ (kernel.scheduler_answer me sched_other 0 bound) (pos 0))) [
        | inl failed ↦ record {
          value = tt;
          after = print scheduler_error ∷ scheduler_call me sched_other 0 ∷ bound;
          run = rw (accepts tr, failed) refl;
          post = (refl, refl);
        }
        | inr fine ↦ record {
          value = tt;
          after = scheduler_call me sched_other 0 ∷ bound;
          run = rw (accepts tr, fine) refl;
          post = (refl, refl);
        }
      ]
    where
      bound : Trace
      bound = affinity_call (kernel.own_pid tr) 0 ∷ tr

      me : ℤ
      me = kernel.own_pid bound

  arrive_passes :
      (t : ℕ) (p : Process) (tr : Trace)
      → eq_ℤ p.ready (pos t) ≡ false
      → arrive kernel stray t p tr ≡ (returned p, tr)
  unfolding arrive
  arrive_passes t p tr later = rw later refl

  -- An arrival ends the program.
  module _ (code : ℕ) (spent : Process → ℕ)
      (ends : (t : ℕ) (p : Process) (tr : Trace)
        → eq_ℤ p.ready (pos t) ≡ true
        → Exits (arrive kernel stray t p) tr code (AtFirst 0 (spent p) tr))
      (ps : List Process) (q : Process) (first : ℕ) (lost : AllLost ps) (listed : Mem q ps)
      (arrives : eq_ℤ q.ready (pos first) ≡ true) (none_before : NoneBefore first ps)
      (fits : first ≤ int_max) where
    -- The state at the time `t`, before the first arrival.
    abbrev pub idle : ℕ → State
    idle t = record { proc = ps; running = none; finish_cnt = 0; ntime = t; t_last = 0 }

    abbrev pub Waiting : ℕ → State → Type 0
    Waiting t s = s ≡ idle t

    -- What the exit at the first arrival leaves behind.
    abbrev pub Left : ℕ → Trace → Trace → Type 0
    Left before tr = Arrived ps first (λ p. AtFirst before (spent p) tr)

    choose-none : (t : ℕ) → choose kernel stray (idle t) ≡ none
    unfolding choose
    choose-none t = least_by-AllLost (λ p. p.exec) stray ps lost

    arrivals_passes :
        (t : ℕ) (tr : Trace) → t < first → arrivals kernel stray t ps tr ≡ (returned ps, tr)
    unfolding arrivals
    arrivals_passes t tr lt =
        for_each_passes (arrive kernel stray t) t (arrive_passes t) ps tr
          (NoneBefore-All t first ps lt none_before)

    round_passes :
        (t : ℕ) (tr : Trace)
        → t < first
        → round kernel stray (idle t) tr ≡ (returned (again (idle (t + 1))), spin 1000000 ∷ tr)
    unfolding round is_over advance switch pass unit_t run_down
    round_passes t tr lt =
        rw (arrivals_passes t tr lt, choose-none t, lt→ltb t int_max (omega arith)) refl

    round-Waits :
        (t : ℕ) (s : State) (tr : Trace)
        → t < first
        → Waiting t s
        → Returns (round kernel stray s) tr (λ r tr'. Waits Waiting t r × (tr' ≡ spin 1000000 ∷ tr))
    round-Waits t s tr lt e =
        let next : t + 1 ≡ suc t = omega arith in
        rw e (run_rule (round kernel stray (idle t)) (round_passes t tr lt) (ap idle next, refl))

    arrivals_exits : (tr : Trace) → Exits (arrivals kernel stray first ps) tr code (Left 0 tr)
    unfolding arrivals
    arrivals_exits tr =
        for_each_exits (arrive kernel stray first) first (arrive_passes first) code
          (λ p. AtFirst 0 (spent p)) (ends first) q ps tr arrives listed

    round_exits :
        (s : State) (tr : Trace)
        → Waiting first s
        → Exits (round kernel stray s) tr code (Left 0 tr)
    unfolding round is_over advance
    round_exits s tr e =
        rw e (Exits-before (arrivals kernel stray first ps) chosen (arrivals_exits tr))
      where
        chosen : List Process → M (Round State)
        chosen ps' =
            let arrived = record (idle first) { proc = ps' } in
            switch kernel stray arrived (choose kernel stray arrived) >>= pass kernel stray

    pub loop_exits :
        (fuel : ℕ) (tr : Trace)
        → first < fuel
        → Exits (loop kernel stray fuel ps) tr code (Left first tr)
    unfolding loop
    loop_exits fuel tr lt =
        weaken_exit
          (forever_exits Waiting 1000000 first code (Left 0) (round kernel stray) round-Waits
            round_exits first fuel 0 (idle 0) tr lt (omega arith) refl)
          λ tr' left. record {
            entry = left.entry;
            listed = left.listed;
            arrives = left.arrives;
            post = AtFirst-spend 1000000 first (spent left.entry) tr tr' left.post;
          }
