-- ===== src/Fifo/Idle.antt =====
-- FIFO in the units of time in which no process is left to run.
use os_project.Prelude.{
  ℕ, ◌≡◌, refl, Option, none, List, [], ◌∷◌, Bool-cases, inl, inr, false, ltb, ℤ, pos, ltb_ℤ, map,
  arith,
}
use os_project.Process.{Process, unstarted}
use os_project.Process.Sorting.{Qsort}
use os_project.Os.{
  Trace, Kernel, M, ◌>>=◌, ◌>>◌, say, print, affinity_call, table_row, sched_other, int_max,
}
use os_project.Os.Forks.{Accepts}
use os_project.Os.Triple.{Returns, step_rule, pure_rule, ends_rule, outcome-after}
use os_project.Os.Loop.{Round, Idles, idle_outcome, forever, forever_idles}
use os_project.Fifo.Control.{time_unit, compare, proc_assign_cpu, proc_wakeup}
use os_project.Fifo.{
  State, arrivals, next_proc, switch, run_down, pass, advance, is_over, round, print_table, prepare,
  fifo,
}

module _ (kernel : Kernel) (stray : Process) where
  print_table_ends :
      (ps : List Process) (tr : Trace) → Returns (print_table kernel stray ps) tr (λ _ _. Unit)
  unfolding print_table
  print_table_ends [] tr = pure_rule tt tr tt
  print_table_ends (p ∷ ps) tr =
      step_rule (say (table_row p.name p.ready p.exec)) (λ _. print_table kernel stray ps) refl
        (print_table_ends ps (print (table_row p.name p.ready p.exec) ∷ tr))

  prepare_ends : Accepts kernel → (tr : Trace) → Returns (prepare kernel stray) tr (λ _ _. Unit)
  unfolding prepare proc_assign_cpu proc_wakeup
  prepare_ends accepts tr =
      elim (Bool-cases (ltb_ℤ (kernel.scheduler_answer me sched_other 0 bound) (pos 0))) [
        | inl failed ↦ ends_rule (prepare kernel stray) tr (rw (accepts tr, failed) tt)
        | inr fine ↦ ends_rule (prepare kernel stray) tr (rw (accepts tr, fine) tt)
      ]
    where
      bound : Trace
      bound = affinity_call (kernel.own_pid tr) 0 ∷ tr

      me : ℤ
      me = kernel.own_pid bound

  -- The process does not run, at the time `t`, and the table has a property that lasts.
  abbrev pub Vacant : (List Process → Type 0) → ℕ → State → Type 0
  Vacant Table t s = Table s.proc × (s.running ≡ none) × (s.time_cnt ≡ t)

  module _ (Table : List Process → Type 0)
      (unchosen : (s : State) → Table s.proc → s.running ≡ none → next_proc kernel stray s ≡ none)
      (lasts : (now : ℕ) (ps : List Process) (tr : Trace)
        → Table ps
        → Returns (arrivals kernel stray now ps) tr (λ ps' _. Table ps')) where
    pass-Idles :
        (t : ℕ) (s : State) (tr : Trace)
        → Vacant Table t s
        → Idles (Vacant Table) t (pass kernel stray s none tr).0
    unfolding pass run_down time_unit
    pass-Idles t s tr (table, vacant, clock) = elim (Bool-cases (ltb t int_max)) [
      | inl before ↦ rw (clock, before) (before, (table, refl, omega arith))
      | inr late ↦ rw (clock, late) late
    ]

    advance-Idles :
        (t : ℕ) (s : State) (tr : Trace)
        → Vacant Table t s
        → Idles (Vacant Table) t (advance kernel stray s tr).0
    unfolding advance switch
    advance-Idles t s tr (table, vacant, clock) =
        outcome-after (Idles (Vacant Table) t) (arrivals kernel stray s.time_cnt s.proc) chosen
          (lasts s.time_cnt s.proc tr table)
          λ ps tr' table'.
            rw (unchosen (arrived ps) table' vacant, vacant)
              (pass-Idles t (record s { proc = ps; running = none }) tr' (table', refl, clock))
      where
        arrived : List Process → State
        arrived ps = record s { proc = ps }

        chosen : List Process → M (Round State)
        chosen ps =
            switch kernel stray (arrived ps) (next_proc kernel stray (arrived ps))
            >>= pass kernel stray (arrived ps)

    is_over_vacant : (s : State) → s.running ≡ none → is_over kernel stray s ≡ false
    unfolding is_over
    is_over_vacant s vacant = rw vacant refl

    round-Idles :
        (t : ℕ) (s : State) (tr : Trace)
        → Vacant Table t s
        → Idles (Vacant Table) t (round kernel stray s tr).0
    unfolding round
    round-Idles t s tr idle = rw (is_over_vacant s idle.1) (advance-Idles t s tr idle)

    -- FIFO idles on a sorted table that has the property and keeps it.
    pub fifo_idles :
        Accepts kernel
        → (qsort : Qsort) (fuel : ℕ) (proc : List Process) (tr : Trace)
        → Table (map unstarted (qsort compare proc))
        → (fifo kernel stray qsort fuel proc tr).0 ≡ idle_outcome fuel
    unfolding fifo
    fifo_idles accepts qsort fuel proc tr table =
        outcome-after (λ o. o ≡ idle_outcome fuel) (print_table kernel stray sorted)
          (λ _. prepare kernel stray >> run) (print_table_ends sorted tr)
          λ _ tr' _.
            outcome-after (λ o. o ≡ idle_outcome fuel) (prepare kernel stray) (λ _. run)
              (prepare_ends accepts tr')
              λ _ tr'' _.
                forever_idles (Vacant Table) (round kernel stray) round-Idles fuel fresh tr''
                  (table, refl, refl)
      where
        sorted : List Process
        sorted = qsort compare proc

        fresh : State
        fresh = record { proc = map unstarted sorted; running = none; finish = 0; time_cnt = 0 }

        run : M (Option State)
        run = forever fuel (round kernel stray) fresh
