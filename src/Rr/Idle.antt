-- ===== src/Rr/Idle.antt =====
-- RR in the units of time in which no process is left to run.
use os_project.Prelude.{
  ℕ, ◌≡◌, refl, Option, none, List, ◌∷◌, Bool-cases, inl, inr, false, ltb, pos, map, arith,
}
use os_project.Process.{Process, unstarted}
use os_project.Process.Sorting.{Qsort}
use os_project.Os.{Trace, Kernel, M, ◌>>=◌, returned, affinity_call, int_max}
use os_project.Os.Forks.{Accepts, LetsOther}
use os_project.Os.Triple.{Returns, ends_rule, outcome-after}
use os_project.Os.Loop.{Round, Idles, idle_outcome, forever_idles, and_then-idle_outcome}
use os_project.Cpu.{proc_assign_cpu}
use os_project.Rr.Control.{unit_time, rr_compare}
use os_project.Rr.{
  State, arrivals, rr_next, switch, run_down, pass, advance, is_over, round, prepare, loop, report,
  rr_main,
}

module _ (kernel : Kernel) (stray : Process) where
  prepare_ends :
      Accepts kernel
      → LetsOther kernel
      → (tr : Trace) → Returns (prepare kernel stray) tr (λ _ _. Unit)
  unfolding prepare proc_assign_cpu
  prepare_ends accepts lets tr =
      ends_rule (prepare kernel stray) tr
        (rw (accepts tr, lets tr (affinity_call (kernel.own_pid tr) 0 ∷ tr)) tt)

  -- No process runs, at the time `t`, and the table has a property that lasts.
  abbrev pub Vacant : (List Process → Type 0) → ℕ → State → Type 0
  Vacant Table t s = Table s.proc × (s.running ≡ none) × (s.time_now ≡ t)

  module _ (Table : List Process → Type 0)
      (unchosen : (s : State) (tr : Trace)
        → Table s.proc
        → s.running ≡ none
        → rr_next kernel stray s tr ≡ (returned none, tr))
      (lasts : (now : ℕ) (ps : List Process) (tr : Trace)
        → Table ps
        → Returns (arrivals kernel stray now ps) tr (λ ps' _. Table ps')) where
    pass-Idles :
        (t : ℕ) (s : State) (tr : Trace)
        → Vacant Table t s
        → Idles (Vacant Table) t (pass kernel stray s tr).0
    unfolding pass run_down unit_time
    pass-Idles t s tr (table, vacant, clock) = elim (Bool-cases (ltb t int_max)) [
      | inl before ↦ rw (vacant, clock, before) (before, (table, refl, omega arith))
      | inr late ↦ rw (vacant, clock, late) late
    ]

    advance-Idles :
        (t : ℕ) (s : State) (tr : Trace)
        → Vacant Table t s
        → Idles (Vacant Table) t (advance kernel stray s tr).0
    unfolding advance switch
    advance-Idles t s tr (table, vacant, clock) =
        outcome-after (Idles (Vacant Table) t) (arrivals kernel stray s.time_now s.proc) chosen
          (lasts s.time_now s.proc tr table)
          λ ps tr' table'.
            rw (unchosen (arrived ps) tr' table' vacant)
              (pass-Idles t (arrived ps) tr' (table', vacant, clock))
      where
        arrived : List Process → State
        arrived ps = record s { proc = ps }

        chosen : List Process → M (Round State)
        chosen ps = rr_next kernel stray (arrived ps) >>= λ next.
            switch kernel stray (arrived ps) next >>= pass kernel stray

    is_over_vacant : (s : State) → s.running ≡ none → is_over kernel stray s ≡ false
    unfolding is_over
    is_over_vacant s vacant = rw vacant refl

    round-Idles :
        (t : ℕ) (s : State) (tr : Trace)
        → Vacant Table t s
        → Idles (Vacant Table) t (round kernel stray s tr).0
    unfolding round
    round-Idles t s tr idle = rw (is_over_vacant s idle.1) (advance-Idles t s tr idle)

    loop_idles :
        (fuel : ℕ) (proc : List Process) (tr : Trace)
        → Table proc
        → (loop kernel stray fuel proc tr).0 ≡ idle_outcome fuel
    unfolding loop
    loop_idles fuel proc tr table =
        forever_idles (Vacant Table) (round kernel stray) round-Idles fuel
          (record {
            proc = proc;
            running = none;
            time_now = 0;
            time_last = 0;
            finish_cnt = 0;
            wait = pos 0;
          })
          tr (table, refl, refl)

    -- RR idles on a sorted table that has the property and keeps it.
    pub rr_main_idles :
        Accepts kernel
        → LetsOther kernel
        → (qsort : Qsort) (fuel : ℕ) (proc : List Process) (tr : Trace)
        → Table (map unstarted (qsort rr_compare proc))
        → (rr_main kernel stray qsort fuel proc tr).0 ≡ idle_outcome fuel
    unfolding rr_main report
    rr_main_idles accepts lets qsort fuel proc tr table =
        outcome-after (λ o. o ≡ idle_outcome fuel) (prepare kernel stray)
          (λ _. run >>= report kernel stray) (prepare_ends accepts lets tr)
          λ _ tr' _.
            and_then-idle_outcome fuel (run tr').0 (report kernel stray) (run tr').1 refl
              (loop_idles fuel (map unstarted (qsort rr_compare proc)) tr' table)
      where
        run : M (Option State)
        run = loop kernel stray fuel (map unstarted (qsort rr_compare proc))
