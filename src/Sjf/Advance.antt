-- ===== src/Sjf/Advance.antt =====
-- A round of SJF's loop behind the test for the end of the running process.
use os_project.Prelude.{
  ℕ, ◌+◌, ◌-◌, ◌≤◌, ◌<◌, ◌≡◌, refl, ap, ◌∙◌, Option, none, some, List, ◌∷◌, ◌++◌, pos, get_or, set,
  length, length-set, get_or-set_self, set-set, arith,
}
use os_project.Process.{Process, Name, least_by}
use os_project.Process.Jobs.{Job, no_job, Entry, Shows, Shows-get, Shows-set}
use os_project.Process.Work.{Budget, Budget-idle, Budget-run, spend, done_count, done_count-spend}
use os_project.Os.{Trace, Kernel, IsReliable, int_max, M, ◌>>=◌}
use os_project.Os.Loop.{Round}
use os_project.Os.Triple.{Returns, bind_rule, step_rule, run_rule}
use os_project.Sjf.{State, arrivals, choose, switch, pass, advance}
use os_project.Sjf.Plan.{Plan, wait, run, finish, Chosen, exec_key, least_by-Chosen}
use os_project.Sjf.Steps.{
  seen, arrivals-Shows, switch-none, switch-stay, switch-start, choose-idle, choose-busy,
  pass_vacant, pass_run,
}
use os_project.Sjf.Invariant.{Vacant, Occupied, Goal, vacant_at, occupied_at}

module _ (start : List Job) (latest limit : ℕ) where
  module _ (kernel : Kernel) (stray : Process) (reliable : IsReliable kernel)
      (fits : limit ≤ int_max) where
    -- Job `i` runs for a unit of time.
    pass_on :
        (s : State) (tr : Trace) (js : List Job) (past : List (Name × ℕ)) (i : ℕ)
        → s.running ≡ some i
        → Shows (s.ntime + 1) s.proc js
        → Budget latest limit s.ntime js
        → seen tr ≡ (s.ntime, past)
        → i < length js
        → 0 < (get_or js i no_job).left
        → s.finish_cnt ≡ done_count js
        → ((out : List (Name × ℕ))
            → Plan (s.ntime + (get_or js i no_job).left) (finish js i) out
            → Plan 0 start
                (past ++ ((get_or js i no_job).name, s.ntime + (get_or js i no_job).left) ∷ out))
        → Returns (pass kernel stray s) tr (Goal start latest limit s)
    pass_on s tr js past i busy shown budget reports inside left counted plan =
        run_rule (pass kernel stray s)
          (pass_run kernel stray s i (j.left - 1) tr busy (omega (arith, budget'))
            (entry.exec_shown ∙ ap pos (omega arith)))
          (
            occupied_at js' past i (record {
              facts = record {
                shown = Shows-set (s.ntime + 1) s.proc js i _ (spend j) shown entry';
                budget = budget'.0;
                reports = ap (λ (v : ℕ × List (Name × ℕ)). (v.0 + 1, v.1)) reports;
              };
              running = busy;
              inside = omega (arith, length-set js i (spend j));
              counted = rw self (ground (arith, done_count-spend no_job js i inside left));
              plan =
                  rw self
                    (rw (set-set js i (spend j) (record j { left = 0 })) (rw total_time plan));
            }),
            omega (arith, budget'),
          )
      where
        j : Job
        j = get_or js i no_job

        js' : List Job
        js' = set js i (spend j)

        self : get_or js' i no_job ≡ spend j
        self = get_or-set_self js i (spend j) no_job inside

        entry : Entry (s.ntime + 1) (get_or s.proc i stray) j
        entry = Shows-get (s.ntime + 1) s.proc js i stray no_job shown inside

        entry' :
            Entry
              (s.ntime + 1)
              (record (get_or s.proc i stray) { exec = pos (j.left - 1) })
              (spend j)
        entry' = record {
          name_shown = entry.name_shown;
          ready_shown = entry.ready_shown;
          exec_shown = refl;
          pid_shown = entry.pid_shown;
        }

        budget' : Budget latest limit (s.ntime + 1) js' × (s.ntime < limit)
        budget' = Budget-run no_job budget i inside left

        total_time : s.ntime + 1 + (j.left - 1) ≡ s.ntime + j.left
        total_time = omega arith

    -- What the loop does behind the arrivals.
    abbrev go_on : State → List Process → M (Round State)
    go_on s ps =
        let arrived = record s { proc = ps } in
        switch kernel stray arrived (choose kernel stray arrived) >>= pass kernel stray

    advance_rule :
        (s : State) (tr : Trace) (js : List Job)
        → Shows s.ntime s.proc js
        → ((ps : List Process) (tr' : Trace)
            → Shows (s.ntime + 1) ps js
            → seen tr' ≡ seen tr
            → Returns (go_on s ps) tr' (Goal start latest limit s))
        → Returns (advance kernel stray s) tr (Goal start latest limit s)
    unfolding advance
    advance_rule s tr js shown rest =
        bind_rule (arrivals kernel stray s.ntime s.proc) (go_on s)
          (arrivals-Shows kernel stray reliable s.ntime s.proc js tr shown)
          λ ps tr' (shown', q). rest ps tr' shown' q

    Vacant-switch :
        (s : State) (tr tr' : Trace) (ps : List Process) (js : List Job) (past : List (Name × ℕ))
        (r : Option ℕ)
        → Vacant start latest limit s tr js past
        → Shows (s.ntime + 1) ps js
        → seen tr' ≡ seen tr
        → Chosen s.ntime js r
        → Returns
            (switch kernel stray (record s { proc = ps }) r >>= pass kernel stray)
            tr'
            (Goal start latest limit s)
    Vacant-switch s tr tr' ps js past none v shown q idle =
        step_rule (switch kernel stray arrived none) (pass kernel stray)
          (switch-none kernel stray arrived tr')
          (run_rule (pass kernel stray arrived)
            (pass_vacant kernel stray arrived tr' v.vacant (omega (arith, later)))
            (
              vacant_at js past (record {
                facts = record {
                  shown = shown;
                  budget = later.0;
                  reports = ap (λ (w : ℕ × List (Name × ℕ)). (w.0 + 1, w.1)) (q ∙ v.facts.reports);
                };
                vacant = v.vacant;
                counted = v.counted;
                undone = v.undone;
                plan = λ out p. v.plan out (wait v.undone idle p);
              }),
              omega (arith, later),
            ))
      where
        arrived : State
        arrived = record s { proc = ps }

        later : Budget latest limit (s.ntime + 1) js × (s.ntime < limit)
        later = Budget-idle no_job v.facts.budget v.undone idle
    Vacant-switch s tr tr' ps js past (some i) v shown q short =
        let arrived : State = record s { proc = ps } in
        bind_rule (switch kernel stray arrived (some i)) (pass kernel stray)
          (switch-start kernel stray arrived i tr' v.vacant)
          λ s' tr'' (e, q'). rw e (
            pass_on (record arrived { running = some i; t_last = s.ntime }) tr'' js past i refl
              shown v.facts.budget (q' ∙ q ∙ v.facts.reports) short.inside
              (ground (arith, short.waits)) v.counted (λ out p. v.plan _ (run i short p)))

    pub advance-Vacant :
        (s : State) (tr : Trace) (js : List Job) (past : List (Name × ℕ))
        → Vacant start latest limit s tr js past
        → Returns (advance kernel stray s) tr (Goal start latest limit s)
    advance-Vacant s tr js past v = advance_rule s tr js v.facts.shown λ ps tr' shown q.
        rw (choose-idle kernel stray (record s { proc = ps }) v.vacant) (
          Vacant-switch s tr tr' ps js past (least_by exec_key stray ps) v shown q
            (least_by-Chosen stray s.ntime ps js shown))

    pub advance-Occupied :
        (s : State) (tr : Trace) (js : List Job) (past : List (Name × ℕ)) (i : ℕ)
        → Occupied start latest limit s tr js past i
        → 0 < (get_or js i no_job).left
        → Returns (advance kernel stray s) tr (Goal start latest limit s)
    advance-Occupied s tr js past i o left = advance_rule s tr js o.facts.shown λ ps tr' shown q.
        let arrived : State = record s { proc = ps } in
        rw (choose-busy kernel stray arrived i o.running) (
          step_rule (switch kernel stray arrived (some i)) (pass kernel stray)
            (switch-stay kernel stray arrived i tr' o.running)
            (pass_on arrived tr' js past i o.running shown o.facts.budget (q ∙ o.facts.reports)
              o.inside left (ground (arith, o.counted)) o.plan))
