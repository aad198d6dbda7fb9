-- ===== src/Rr/Advance.antt =====
-- A round of RR's loop behind the test for the end of the running process.
mod Run
use native.Mathlib.Nat.{mod-lt}
use native.Mathlib.Decide.{ℕ_discrete}
use os_project.Prelude.{
  ℕ, ◌+◌, ◌-◌, ◌*◌, ◌≤◌, ◌<◌, ◌≡◌, refl, sym, ap, ◌∙◌, inl, inr, Option, none, some, List, true,
  false, Bool-cases, pos, get_or, length, length-set, get_or-set_self, arith,
}
use os_project.Process.{Process, Name, same_index}
use os_project.Process.Jobs.{Job, no_job, Entry, Shows, can_run, Shows-get, Shows-set}
use os_project.Process.Work.{Budget, Budget-idle, Budget-run, spend, done_count, done_count-spend}
use os_project.Os.{Trace, Kernel, IsReliable, int_max, M, ◌>>=◌}
use os_project.Os.Loop.{Round}
use os_project.Os.Triple.{Returns, bind_rule, step_rule, run_rule}
use os_project.Rr.{State, arrivals, rr_next, first_ready, switch, pass, advance, is_over as over}
use os_project.Rr.Ring.{NextInRing, FirstFrom, first_ready-FirstFrom, rotate_found}
use os_project.Rr.Turns.{
  idle, runs, Choice, begin, keep, again as same_again, pass_on, turn_over, use_unit,
}
use os_project.Rr.History.{use_unit-Keeps}
use os_project.Rr.Control.Laws.{seen}
use os_project.Rr.Steps.{
  arrivals-Shows, rr_next-idle, rr_next-keep, rr_next-turn, switch-none, switch-stay, switch-change,
  pass_vacant, pass_run,
}
use os_project.Rr.Invariant.{Facts, Vacant, Occupied, Goal, vacant_at, occupied_at}
use os_project.Rr.Advance.Run.{changes, stays}

module _ (start : List Job) (latest limit : ℕ) where
  module _ (kernel : Kernel) (stray : Process) (reliable : IsReliable kernel)
      (fits : limit ≤ int_max) (sum_fits : length start * limit ≤ int_max) where
    -- What the loop does behind the arrivals.
    abbrev go_on : State → List Process → M (Round State)
    go_on s ps =
        let arrived = record s { proc = ps } in
        rr_next kernel stray arrived >>= λ next.
        switch kernel stray arrived next >>= pass kernel stray

    advance_rule :
        (s : State) (tr : Trace) (js : List Job)
        → Shows s.time_now s.proc js
        → ((ps : List Process) (tr' : Trace)
            → Shows (s.time_now + 1) ps js
            → seen tr' ≡ seen tr
            → Returns (go_on s ps) tr' (Goal start latest limit s))
        → Returns (advance kernel stray s) tr (Goal start latest limit s)
    unfolding advance
    advance_rule s tr js shown rest =
        bind_rule (arrivals kernel stray s.time_now s.proc) (go_on s)
          (arrivals-Shows kernel stray s.time_now s.proc js tr reliable shown)
          λ ps tr' (shown', q). rest ps tr' shown' q

    Vacant-switch :
        (s : State) (tr tr' : Trace) (ps : List Process) (js : List Job) (past : List (ℕ × ℕ))
        (r : Option ℕ)
        → Vacant start latest limit s tr js past
        → Shows (s.time_now + 1) ps js
        → seen tr' ≡ seen tr
        → FirstFrom s.time_now 0 js r
        → Returns
            (switch kernel stray (record s { proc = ps }) r >>= pass kernel stray)
            tr'
            (Goal start latest limit s)
    Vacant-switch s tr tr' ps js past none v shown q no_one =
        step_rule (switch kernel stray arrived none) (pass kernel stray)
          (switch-none kernel stray arrived tr')
          (run_rule (pass kernel stray arrived)
            (pass_vacant kernel stray arrived tr' v.vacant (omega (arith, later)))
            (
              vacant_at js past (record {
                facts = record {
                  shown = shown;
                  budget = later.0;
                  keeps = v.facts.keeps;
                  reported =
                      ap (λ (w : ℕ × List (Name × ℕ)). (w.0 + 1, w.1)) (q ∙ v.facts.reported);
                  waited = v.facts.waited;
                  bounded = v.facts.bounded;
                  plan = λ out r.
                      v.facts.plan out (rw v.vacant (idle v.undone no_one (rw v.vacant at r)));
                };
                vacant = v.vacant;
                counted = v.counted;
                undone = v.undone;
              }),
              omega (arith, later),
            ))
      where
        arrived : State
        arrived = record s { proc = ps }

        later : Budget latest limit (s.time_now + 1) js × (s.time_now < limit)
        later = Budget-idle no_job v.facts.budget v.undone no_one
    Vacant-switch s tr tr' ps js past (some r) v shown q (i, place, first) =
        let here : r ≡ i = omega arith in
        rw here (
          changes start latest limit kernel stray reliable fits sum_fits s tr tr' ps js past i
            v.facts q shown (ap (λ running. same_index running (some i)) v.vacant) v.counted
            (rw v.vacant (begin first)) first.inside first.waits)

    pub advance-Vacant :
        (s : State) (tr : Trace) (js : List Job) (past : List (ℕ × ℕ))
        → Vacant start latest limit s tr js past
        → Returns (advance kernel stray s) tr (Goal start latest limit s)
    advance-Vacant s tr js past v = advance_rule s tr js v.facts.shown λ ps tr' shown q.
        let arrived : State = record s { proc = ps } in
        step_rule (rr_next kernel stray arrived)
          (λ next. switch kernel stray arrived next >>= pass kernel stray)
          (rr_next-idle kernel stray arrived tr' v.vacant)
          (Vacant-switch s tr tr' ps js past (first_ready 0 ps) v shown q
            (first_ready-FirstFrom s.time_now 0 ps js shown))

    -- The turn of job `i` is over, and `k` is the next one in the ring.
    next_goes_on :
        (s : State) (tr tr' : Trace) (ps : List Process) (js : List Job) (past : List (ℕ × ℕ))
        (i k : ℕ)
        → Occupied start latest limit s tr js past i
        → s.finish_cnt ≡ done_count js
        → Shows (s.time_now + 1) ps js
        → seen tr' ≡ seen tr
        → turn_over s.time_now s.time_last ≡ true
        → 0 < (get_or js i no_job).left
        → NextInRing s.time_now js i k
        → Returns
            (switch kernel stray (record s { proc = ps }) (some k) >>= pass kernel stray)
            tr'
            (Goal start latest limit s)
    next_goes_on s tr tr' ps js past i k o counted shown q over left next = elim (ℕ_discrete k i) [
      | yes same ↦
          stays start latest limit kernel stray reliable fits sum_fits s tr tr' ps js past k o.facts
            q shown (o.running ∙ ap some (sym same)) counted
            (rw o.running (same_again over left next same)) inside next.waits
      | no other ↦
          changes start latest limit kernel stray reliable fits sum_fits s tr tr' ps js past k
            o.facts q shown (ap (λ running. same_index running (some k)) o.running ∙ ground arith)
            counted (rw o.running (pass_on over left next other)) inside next.waits
    ]
      where
        inside : k < length js
        inside = rw next.place (mod-lt (i + next.distance) (omega (arith, o.inside)))

    pub advance-Occupied :
        (s : State) (tr : Trace) (js : List Job) (past : List (ℕ × ℕ)) (i : ℕ)
        → Occupied start latest limit s tr js past i
        → 0 < (get_or js i no_job).left
        → Returns (advance kernel stray s) tr (Goal start latest limit s)
    advance-Occupied s tr js past i o left = advance_rule s tr js o.facts.shown λ ps tr' shown q.
        let arrived : State = record s { proc = ps } in
        elim (Bool-cases (turn_over s.time_now s.time_last)) [
          | inl over ↦
              let (k, found, next) =
                rotate_found kernel stray s.time_now ps js i shown o.inside busy in
              step_rule (rr_next kernel stray arrived)
                (λ next. switch kernel stray arrived next >>= pass kernel stray)
                (rr_next-turn kernel stray arrived i k tr' o.running over found)
                (next_goes_on s tr tr' ps js past i k o counted shown q over left next)
          | inr early ↦
              step_rule (rr_next kernel stray arrived)
                (λ next. switch kernel stray arrived next >>= pass kernel stray)
                (rr_next-keep kernel stray arrived i tr' o.running early)
                (stays start latest limit kernel stray reliable fits sum_fits s tr tr' ps js past i
                  o.facts q shown o.running counted (rw o.running (keep early)) o.inside busy)
        ]
      where
        counted : s.finish_cnt ≡ done_count js
        counted = ground (arith, o.counted)

        busy : can_run (s.time_now + 1) (get_or js i no_job) ≡ true
        busy = ground (arith, o.come)
