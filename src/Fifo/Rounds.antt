-- ===== src/Fifo/Rounds.antt =====
-- One round of FIFO's loop follows the specification.
use os_project.Prelude.{
  ℕ, ◌+◌, ◌≤◌, ◌<◌, ◌≡◌, refl, ◌∙◌, ◌⊎◌, inl, inr, none, List, [], ◌∷◌, ◌++◌, length, length-append,
  All-append, get_or-middle, arith, ◌==◌, ==_iff, if◌then◌else◌, false,
}
use mathlib.Core.List.{append_assoc}
use os_project.Process.{Process, Name, proc_at}
use os_project.Process.Jobs.{Job, Entry, Shows-get, Shows-length}
use os_project.Os.{
  Trace, Kernel, IsReliable, int_max, M, ◌>>◌, pure, say, waitpid, print, ended, wait_call,
}
use os_project.Os.Loop.{Round, break}
use os_project.Os.Triple.{Returns, step_rule, pure_rule}
use os_project.Fifo.{State, advance, is_over as over, reap, round}
use os_project.Fifo.Control.Laws.{endings}
use os_project.Fifo.Schedule.{finish_times}
use os_project.Fifo.Steps.{is_over-idle, is_over-busy}
use os_project.Fifo.Invariant.{Occupied, Inv, Goal, vacant_at, occupied_at}
use os_project.Fifo.Advance.{advance-Vacant, advance-Occupied}

==-zero_of_pos : (n : ℕ) → 0 < n → (n == 0) ≡ false
==-zero_of_pos n h = ground arith

zero_or_pos : (n : ℕ) → (n ≡ 0) ⊎ (0 < n)
zero_or_pos n = omega arith

module _ (total : List (Name × ℕ)) (limit : ℕ) where
  module _ (kernel : Kernel) (stray : Process) (reliable : IsReliable kernel)
      (fits : limit ≤ int_max) where
    running-Entry :
        (s : State) (tr : Trace) (done rest : List Job) (j : Job)
        → Occupied total limit s tr done rest j
        → Entry s.time_cnt (proc_at stray s.proc s.running) j
    running-Entry s tr done rest j o = rw o.running (
        rw (get_or-middle done rest j j) at (
          Shows-get s.time_cnt s.proc (done ++ j ∷ rest) (length done) stray j o.facts.shown
            (omega (arith, length-append {0} {A = Job} done (j ∷ rest)))))

    length-proc :
        (s : State) (tr : Trace) (done rest : List Job) (j : Job)
        → Occupied total limit s tr done rest j
        → length s.proc ≡ s.finish + 1 + length rest
    length-proc s tr done rest j o = omega (
      arith,
      Shows-length s.time_cnt s.proc (done ++ j ∷ rest) o.facts.shown,
      length-append {0} {A = Job} done (j ∷ rest),
      o.facts.counted,
    )

    abbrev reaped : State → State
    reaped s = record s { running = none; finish = s.finish + 1 }

    abbrev afterwards : State → M (Round State)
    afterwards s =
        if s.finish + 1 == length s.proc
        then pure (break (reaped s))
        else advance kernel stray (reaped s)

    -- The end of `j` is reported, and the loop ends or goes on.
    reap_rule :
        (s : State) (tr : Trace) (done rest : List Job) (j : Job)
        → Occupied total limit s tr done rest j
        → j.left ≡ 0
        → ((tr' : Trace)
            → endings tr' ≡ endings tr ++ (j.name, s.time_cnt) ∷ []
            → Returns (afterwards s) tr' (Goal total limit s))
        → Returns (reap kernel stray s) tr (Goal total limit s)
    unfolding reap
    reap_rule s tr done rest j o over next =
        let p = proc_at stray s.proc s.running in
        step_rule (waitpid p.pid) (λ _. say (ended p.name s.time_cnt) >> afterwards s) refl
          (step_rule (say (ended p.name s.time_cnt)) (λ _. afterwards s) refl
            (next (print (ended p.name s.time_cnt) ∷ wait_call p.pid ∷ tr)
              (rw (running-Entry s tr done rest j o).name_shown)))

    reap_last :
        (s : State) (tr : Trace) (done : List Job) (j : Job)
        → Occupied total limit s tr done [] j
        → j.left ≡ 0
        → Returns (reap kernel stray s) tr (Goal total limit s)
    reap_last s tr done j o over = reap_rule s tr done [] j o over λ tr' q.
        rw ((==_iff (s.finish + 1) (length s.proc)).1 (omega (arith, all))) (
          pure_rule (break (reaped s)) tr' (record {
            reported = q ∙ rw now o.foretold;
            all_done = omega (arith, all);
            at_limit = omega (arith, o.limited);
          }))
      where
        all : length s.proc ≡ s.finish + 1 + 0
        all = length-proc s tr done [] j o

        now : s.time_cnt ≡ s.time_cnt + j.left
        now = omega arith

    reap_next :
        (s : State) (tr : Trace) (done rest : List Job) (j next : Job)
        → Occupied total limit s tr done (next ∷ rest) j
        → j.left ≡ 0
        → Returns (reap kernel stray s) tr (Goal total limit s)
    reap_next s tr done rest j next o over = reap_rule s tr done (next ∷ rest) j o over λ tr' q.
        rw not_yet (
          advance-Vacant total limit kernel stray reliable fits (reaped s) tr' (done ++ j ∷ []) rest
            next
            (record {
              facts = record {
                shown = rw (append_assoc done (j ∷ []) (next ∷ rest)) o.facts.shown;
                spent = All-append (λ d. d.left ≡ 0) done (j ∷ []) o.facts.spent (over, tt);
                pending = o.facts.pending.1;
                ordered = o.facts.ordered.1;
                counted = omega (arith, o.facts.counted, length-append {0} {A = Job} done (j ∷ []));
              };
              vacant = refl;
              left = o.facts.pending.0;
              foretold = rw q (
                  rw
                    (append_assoc (endings tr) ((j.name, s.time_cnt) ∷ [])
                      (finish_times s.time_cnt (next ∷ rest)))
                    (rw now o.foretold));
              limited = rw now o.limited;
            }))
      where
        now : s.time_cnt ≡ s.time_cnt + j.left
        now = omega arith

        not_yet : (s.finish + 1 == length s.proc) ≡ false
        not_yet = ground (arith, length-proc s tr done (next ∷ rest) j o)

    reap-Progress :
        (s : State) (tr : Trace) (done rest : List Job) (j : Job)
        → Occupied total limit s tr done rest j
        → j.left ≡ 0
        → Returns (reap kernel stray s) tr (Goal total limit s)
    reap-Progress s tr done [] j o over = reap_last s tr done j o over
    reap-Progress s tr done (next ∷ rest) j o over = reap_next s tr done rest j next o over

    pub round-Progress :
        (s : State) (tr : Trace)
        → Inv total limit s tr
        → Returns (round kernel stray s) tr (Goal total limit s)
    unfolding round
    round-Progress s tr (vacant_at done rest j v) =
        rw (is_over-idle kernel stray reliable s v.vacant)
          (advance-Vacant total limit kernel stray reliable fits s tr done rest j v)
    round-Progress s tr (occupied_at done rest j o) = elim (zero_or_pos j.left) [
      | inl none_left ↦
          rw (test, (==_iff j.left 0).1 none_left) (reap-Progress s tr done rest j o none_left)
      | inr left ↦
          rw (test, ==-zero_of_pos j.left left)
            (advance-Occupied total limit kernel stray reliable fits s tr done rest j o left)
    ]
      where
        test : over kernel stray s ≡ (j.left == 0)
        test =
            is_over-busy kernel stray reliable s (length done) j.left o.running
              (rw o.running at (running-Entry s tr done rest j o)).exec_shown
