-- ===== src/Rr/Rounds.antt =====
-- One round of RR's loop follows the specification.
use mathlib.Core.Path.{ap₂}
use mathlib.Core.List.{append_assoc, append-nil}
use os_project.Prelude.{
  ℕ, ◌+◌, ◌-◌, ◌*◌, ◌≤◌, ◌<◌, ◌≡◌, refl, sym, ap, ◌∙◌, ◌⊎◌, inl, inr, none, List, [], ◌∷◌, ◌++◌,
  true, false, Bool-cases, ◌==◌, ==_iff, if◌then◌else◌, ℤ, pos, get_or, length, arith,
}
use os_project.Process.{Process, Name, proc_at}
use os_project.Process.Jobs.{Job, no_job, Entry, Shows-get, Shows-length}
use os_project.Process.Work.{done_count, done_count-le}
use os_project.Os.{
  Trace, Kernel, IsReliable, int_max, M, ◌>>=◌, ◌>>◌, pure, say, waitpid, print, finish_at,
  wait_call,
}
use os_project.Os.Loop.{Round, break}
use os_project.Os.Triple.{Returns, step_rule, pure_rule}
use os_project.Rr.{State, advance, is_over as over, longer_wait, reap, round}
use os_project.Rr.Turns.{all_over, ends}
use os_project.Rr.History.{turnaround, reports-snoc, turnaround-snoc, one_more, one_more_end}
use os_project.Rr.Control.Laws.{seen}
use os_project.Rr.Steps.{is_over-idle, is_over-busy, longer_wait_run}
use os_project.Rr.Invariant.{Facts, Occupied, Inv, Goal, vacant_at, occupied_at}
use os_project.Rr.Advance.{advance-Vacant, advance-Occupied}

zero_or_pos : (n : ℕ) → (n ≡ 0) × ((n == 0) ≡ true) ⊎ (0 < n) × ((n == 0) ≡ false)
zero_or_pos n = ground arith

module _ (start : List Job) (latest limit : ℕ) where
  module _ (kernel : Kernel) (stray : Process) (reliable : IsReliable kernel)
      (fits : limit ≤ int_max) (sum_fits : length start * limit ≤ int_max) where
    running-Entry :
        (s : State) (tr : Trace) (js : List Job) (past : List (ℕ × ℕ)) (i : ℕ)
        → Occupied start latest limit s tr js past i
        → Entry s.time_now (proc_at stray s.proc s.running) (get_or js i no_job)
    running-Entry s tr js past i o =
        rw o.running (Shows-get s.time_now s.proc js i stray no_job o.facts.shown o.inside)

    abbrev reaped : State → ℤ → State
    reaped s wait = record s { running = none; finish_cnt = s.finish_cnt + 1; wait = wait }

    abbrev afterwards : State → ℤ → M (Round State)
    afterwards s wait =
        if s.finish_cnt + 1 == length s.proc
        then pure (break (reaped s wait))
        else advance kernel stray (reaped s wait)

    -- The ends behind the one of job `i`.
    longer : State → List (ℕ × ℕ) → ℕ → List (ℕ × ℕ)
    longer s past i = past ++ (i, s.time_now) ∷ []

    longer-Facts :
        (s : State) (tr tr' : Trace) (js : List Job) (past : List (ℕ × ℕ)) (i : ℕ)
        → Occupied start latest limit s tr js past i
        → (get_or js i no_job).left ≡ 0
        → seen tr' ≡ ((seen tr).0, (seen tr).1 ++ ((get_or js i no_job).name, s.time_now) ∷ [])
        → Facts start latest limit
            (reaped s (pos (turnaround start (longer s past i))))
            tr'
            js
            (longer s past i)
    unfolding longer
    longer-Facts s tr tr' js past i o over q = record {
      shown = o.facts.shown;
      budget = o.facts.budget;
      keeps = o.facts.keeps;
      reported =
          q
          ∙ ap₂ (λ (v : ℕ × List (Name × ℕ)) (n : Name). (v.0, v.1 ++ (n, s.time_now) ∷ []))
              o.facts.reported (o.facts.keeps.names i)
          ∙ ap (λ l. (s.time_now, l)) (sym (reports-snoc start past i s.time_now));
      waited = refl;
      bounded = rw (turnaround-snoc start past i s.time_now) (
          one_more_end (turnaround start past) (s.time_now - (get_or start i no_job).arrival)
            s.finish_cnt limit o.facts.bounded (omega (arith, o.facts.budget.room)));
      plan = λ out r.
          rw (append_assoc past ((i, s.time_now) ∷ []) out)
            (o.facts.plan ((i, s.time_now) ∷ out) (rw o.running (ends o.inside over r)));
    }

    reap-Progress :
        (s : State) (tr : Trace) (js : List Job) (past : List (ℕ × ℕ)) (i : ℕ)
        → Occupied start latest limit s tr js past i
        → (get_or js i no_job).left ≡ 0
        → Returns (reap kernel stray s) tr (Goal start latest limit s)
    unfolding reap longer
    reap-Progress s tr js past i o over =
        step_rule (waitpid p.pid) (λ _. say (finish_at p.name p.pid s.time_now) >> next) refl
          (step_rule (say (finish_at p.name p.pid s.time_now)) (λ _. next) refl
            (step_rule (longer_wait kernel stray s p) (afterwards s)
              (longer_wait_run kernel stray s p (turnaround start past) (get_or js i no_job).arrival
                tr' o.facts.waited entry.ready_shown (entry.exec_shown ∙ ap pos over)
                (omega (arith, o.come)) sum_in_range)
              (rw waited_more (elim (Bool-cases (s.finish_cnt + 1 == length s.proc)) [
                | inl last ↦ rw last (
                    pure_rule (break end) tr' (record {
                      all_done = (==_iff (s.finish_cnt + 1) (length s.proc)).0 last;
                      in_time = omega (arith, o.facts.budget.room);
                      out = longer s past i;
                      turns =
                          rw append-nil at (
                            facts.plan [] (all_over (ground (arith, last, all_done, same_length))));
                      reported = facts.reported;
                      waited = refl;
                    }))
                | inr more ↦ rw more (
                    advance-Vacant start latest limit kernel stray reliable fits sum_fits end tr' js
                      (longer s past i)
                      (record {
                        facts = facts;
                        vacant = refl;
                        counted = all_done;
                        undone = ground (arith, more, all_done, same_length, done_count-le js);
                      }))
              ]))))
      where
        p : Process
        p = proc_at stray s.proc s.running

        next : M (Round State)
        next = longer_wait kernel stray s p >>= afterwards s

        tr' : Trace
        tr' = print (finish_at p.name p.pid s.time_now) ∷ wait_call p.pid ∷ tr

        entry : Entry s.time_now p (get_or js i no_job)
        entry = running-Entry s tr js past i o

        same_length : length s.proc ≡ length js
        same_length = Shows-length s.time_now s.proc js o.facts.shown

        all_done : s.finish_cnt + 1 ≡ done_count js
        all_done = ground (arith, o.counted, over)

        end : State
        end = reaped s (pos (turnaround start (longer s past i)))

        facts : Facts start latest limit end tr' js (longer s past i)
        facts =
            longer-Facts s tr tr' js past i o over (
              ap (λ (n : Name). ((seen tr).0, (seen tr).1 ++ (n, s.time_now) ∷ []))
                entry.name_shown)

        sum_in_range : turnaround start past + s.time_now ≤ int_max
        sum_in_range =
            one_more (turnaround start past) s.time_now s.finish_cnt limit (length start) int_max
              o.facts.bounded (omega (arith, o.facts.budget.room))
              (omega (arith, all_done, done_count-le js, o.facts.keeps.lengths)) sum_fits

        waited_more :
            turnaround start past + (s.time_now - (get_or js i no_job).arrival)
            ≡ turnaround start (longer s past i)
        waited_more =
            ap (λ a. turnaround start past + (s.time_now - a)) (o.facts.keeps.arrivals i)
            ∙ sym (turnaround-snoc start past i s.time_now)

    pub round-Progress :
        (s : State) (tr : Trace)
        → Inv start latest limit s tr
        → Returns (round kernel stray s) tr (Goal start latest limit s)
    unfolding round
    round-Progress s tr (vacant_at js past v) =
        rw (is_over-idle kernel stray s v.vacant)
          (advance-Vacant start latest limit kernel stray reliable fits sum_fits s tr js past v)
    round-Progress s tr (occupied_at js past i o) = elim (zero_or_pos (get_or js i no_job).left) [
      | inl (none_left, test') ↦ rw (test, test') (reap-Progress s tr js past i o none_left)
      | inr (left, test') ↦
          rw (test, test')
            (advance-Occupied start latest limit kernel stray reliable fits sum_fits s tr js past i
              o left)
    ]
      where
        test : over kernel stray s ≡ ((get_or js i no_job).left == 0)
        test =
            is_over-busy kernel stray s i (get_or js i no_job).left o.running
              (rw o.running at (running-Entry s tr js past i o)).exec_shown
