-- ===== src/Fifo/Advance.antt =====
-- A round of FIFO's loop behind the test for the end of the running process.
use os_project.Prelude.{
  ℕ, ◌+◌, ◌-◌, ◌≤◌, ◌<◌, ◌≡◌, refl, ap, ◌∙◌, ◌⊎◌, inl, inr, none, some, List, ◌∷◌, ◌++◌, pos,
  get_or, length, set-middle, arith,
}
use os_project.Process.{Process, Name}
use os_project.Process.Jobs.{Job, Entry, Shows, Shows-set}
use os_project.Os.{Trace, Kernel, IsReliable, int_max, M, ◌>>=◌}
use os_project.Os.Loop.{Round}
use os_project.Os.Triple.{Returns, bind_rule, step_rule, run_rule}
use os_project.Fifo.{State, arrivals, next_proc, switch, pass, advance}
use os_project.Fifo.Control.Laws.{endings}
use os_project.Fifo.Choice.{head_shown, least_by-first, least_by-none}
use os_project.Fifo.Schedule.{completion, finish_times, last_finish, le-last_finish}
use os_project.Fifo.Steps.{
  arrivals-Shows, switch-none, switch-stay, switch-start, next_proc-idle, next_proc-busy,
  pass_vacant, pass_run,
}
use os_project.Fifo.Invariant.{Facts, Vacant, Occupied, Goal, vacant_at, occupied_at}

le_or_lt : (a b : ℕ) → (a ≤ b) ⊎ (b < a)
le_or_lt a b = omega arith

module _ (total : List (Name × ℕ)) (limit : ℕ) where
  module _ (kernel : Kernel) (stray : Process) (reliable : IsReliable kernel)
      (fits : limit ≤ int_max) where
    -- The job `j` runs for a unit of time.
    pass_on :
        (s : State) (tr : Trace) (ps : List Process) (done rest : List Job) (j : Job)
        → Facts s done rest j
        → Shows (s.time_cnt + 1) ps (done ++ j ∷ rest)
        → 0 < j.left
        → j.arrival < s.time_cnt + 1
        → endings tr ++ (j.name, s.time_cnt + j.left) ∷ finish_times (s.time_cnt + j.left) rest
          ≡ total
        → last_finish (s.time_cnt + j.left) rest ≡ limit
        → Returns
            (pass kernel stray (record s { proc = ps }) (some (length done)))
            tr
            (Goal total limit s)
    pass_on s tr ps done rest j f shown left come foretold limited =
        run_rule (pass kernel stray (record s { proc = ps }) (some (length done)))
          (pass_run kernel stray reliable (record s { proc = ps }) (length done) (j.left - 1) tr
            (omega (arith, in_time)) (entry.exec_shown ∙ ap pos (omega arith)))
          (
            occupied_at done rest j' (record {
              facts = record {
                shown = rw (set-middle done rest j j') at (
                    Shows-set (s.time_cnt + 1) ps (done ++ j ∷ rest) (length done) _ j' shown
                      entry');
                spent = f.spent;
                pending = f.pending;
                ordered = f.ordered;
                counted = f.counted;
              };
              running = refl;
              come = come;
              foretold = rw total_time foretold;
              limited = rw total_time limited;
            }),
            omega (arith, in_time),
          )
      where
        entry : Entry (s.time_cnt + 1) (get_or ps (length done) stray) j
        entry = head_shown stray s.time_cnt ps done rest j shown

        j' : Job
        j' = record j { left = j.left - 1 }

        entry' :
            Entry
              (s.time_cnt + 1)
              (record (get_or ps (length done) stray) { exec = pos (j.left - 1) })
              j'
        entry' = record {
          name_shown = entry.name_shown;
          ready_shown = entry.ready_shown;
          exec_shown = refl;
          pid_shown = entry.pid_shown;
        }

        total_time : s.time_cnt + 1 + (j.left - 1) ≡ s.time_cnt + j.left
        total_time = omega arith

        in_time : s.time_cnt < limit
        in_time = omega (arith, le-last_finish (s.time_cnt + j.left) rest)

    -- What the loop does behind the arrivals.
    abbrev go_on : State → List Process → M (Round State)
    go_on s ps =
        let arrived = record s { proc = ps } in
        switch kernel stray arrived (next_proc kernel stray arrived) >>= pass kernel stray arrived

    advance_rule :
        (s : State) (tr : Trace) (js : List Job)
        → Shows s.time_cnt s.proc js
        → ((ps : List Process) (tr' : Trace)
            → Shows (s.time_cnt + 1) ps js
            → endings tr' ≡ endings tr
            → Returns (go_on s ps) tr' (Goal total limit s))
        → Returns (advance kernel stray s) tr (Goal total limit s)
    unfolding advance
    advance_rule s tr js shown rest =
        bind_rule (arrivals kernel stray s.time_cnt s.proc) (go_on s)
          (arrivals-Shows kernel stray reliable s.time_cnt s.proc js tr shown)
          λ ps tr' (shown', q). rest ps tr' shown' q

    start :
        (s : State) (tr tr' : Trace) (ps : List Process) (done rest : List Job) (j : Job)
        → Vacant total limit s tr done rest j
        → Shows (s.time_cnt + 1) ps (done ++ j ∷ rest)
        → endings tr' ≡ endings tr
        → j.arrival ≤ s.time_cnt
        → Returns (go_on s ps) tr' (Goal total limit s)
    start s tr tr' ps done rest j v shown q come = rw chosen (
        bind_rule (switch kernel stray arrived (some (length done))) (pass kernel stray arrived)
          (switch-start kernel stray reliable arrived (length done) tr' v.vacant)
          λ running tr'' (e, q'). rw e (
            pass_on s tr'' ps done rest j v.facts shown v.left (omega arith)
              (rw (q' ∙ q) (rw begins at v.foretold)) (rw begins at v.limited)))
      where
        arrived : State
        arrived = record s { proc = ps }

        begins : completion s.time_cnt j ≡ s.time_cnt + j.left
        begins = omega arith

        chosen : next_proc kernel stray arrived ≡ some (length done)
        chosen =
            next_proc-idle kernel stray reliable arrived v.vacant
            ∙ least_by-first stray s.time_cnt ps done rest j shown v.facts.spent v.facts.ordered
                v.left come

    stay_idle :
        (s : State) (tr tr' : Trace) (ps : List Process) (done rest : List Job) (j : Job)
        → Vacant total limit s tr done rest j
        → Shows (s.time_cnt + 1) ps (done ++ j ∷ rest)
        → endings tr' ≡ endings tr
        → s.time_cnt < j.arrival
        → Returns (go_on s ps) tr' (Goal total limit s)
    stay_idle s tr tr' ps done rest j v shown q later = rw chosen (
        step_rule (switch kernel stray arrived none) (pass kernel stray arrived)
          (switch-none kernel stray reliable arrived tr' v.vacant)
          (run_rule (pass kernel stray arrived none)
            (pass_vacant kernel stray reliable arrived tr' (omega (arith, in_time)))
            (
              vacant_at done rest j (record {
                facts = record {
                  shown = shown;
                  spent = v.facts.spent;
                  pending = v.facts.pending;
                  ordered = v.facts.ordered;
                  counted = v.facts.counted;
                };
                vacant = refl;
                left = v.left;
                foretold = rw (q, waits) v.foretold;
                limited = rw waits v.limited;
              }),
              omega (arith, in_time),
            )))
      where
        arrived : State
        arrived = record s { proc = ps }

        waits : completion (s.time_cnt + 1) j ≡ completion s.time_cnt j
        waits = omega arith

        in_time : s.time_cnt < limit
        in_time = omega (arith, v.limited, le-last_finish (completion s.time_cnt j) rest)

        chosen : next_proc kernel stray arrived ≡ none
        chosen =
            next_proc-idle kernel stray reliable arrived v.vacant
            ∙ least_by-none stray s.time_cnt ps done rest j shown v.facts.spent v.facts.ordered
                v.left later

    pub advance-Vacant :
        (s : State) (tr : Trace) (done rest : List Job) (j : Job)
        → Vacant total limit s tr done rest j
        → Returns (advance kernel stray s) tr (Goal total limit s)
    advance-Vacant s tr done rest j v =
        advance_rule s tr (done ++ j ∷ rest) v.facts.shown λ ps tr' shown q.
          elim (le_or_lt j.arrival s.time_cnt) [
            | inl come ↦ start s tr tr' ps done rest j v shown q come
            | inr later ↦ stay_idle s tr tr' ps done rest j v shown q later
          ]

    pub advance-Occupied :
        (s : State) (tr : Trace) (done rest : List Job) (j : Job)
        → Occupied total limit s tr done rest j
        → 0 < j.left
        → Returns (advance kernel stray s) tr (Goal total limit s)
    advance-Occupied s tr done rest j o left =
        advance_rule s tr (done ++ j ∷ rest) o.facts.shown λ ps tr' shown q.
          let arrived : State = record s { proc = ps } in
          rw (next_proc-busy kernel stray reliable arrived (length done) o.running) (
            step_rule (switch kernel stray arrived (some (length done))) (pass kernel stray arrived)
              (switch-stay kernel stray reliable arrived (length done) tr' o.running)
              (pass_on s tr' ps done rest j o.facts shown left (omega (arith, o.come))
                (rw q o.foretold) o.limited))
