-- ===== src/Sjf/Rounds.antt =====
-- One round of SJF's loop follows the specification.
use mathlib.Core.Path.{ap₂}
use mathlib.Core.List.{append_assoc, append-nil}
use os_project.Prelude.{
  ℕ, ◌+◌, ◌≤◌, ◌<◌, ◌≡◌, refl, sym, ap, ◌∙◌, ◌⊎◌, inl, inr, none, List, [], ◌∷◌, ◌++◌, true, false,
  Bool-cases, ◌==◌, ==_iff, if◌then◌else◌, get_or, set, length, set-get_or, arith,
}
use os_project.Process.{Process, Name, proc_at}
use os_project.Process.Jobs.{Job, no_job, Entry, Shows-get, Shows-length}
use os_project.Process.Work.{done_count, done_count-le}
use os_project.Os.{
  Trace, Kernel, IsReliable, int_max, M, ◌>>◌, pure, say, waitpid, print, reaped, wait_call,
}
use os_project.Os.Loop.{Round, break}
use os_project.Os.Triple.{Returns, step_rule, pure_rule}
use os_project.Sjf.{State, advance, is_over as over, reap, round}
use os_project.Sjf.Plan.{Plan, all_over, finish}
use os_project.Sjf.Steps.{seen, is_over-idle, is_over-busy}
use os_project.Sjf.Invariant.{Occupied, Inv, Goal, vacant_at, occupied_at}
use os_project.Sjf.Advance.{advance-Vacant, advance-Occupied}

zero_or_pos : (n : ℕ) → (n ≡ 0) × ((n == 0) ≡ true) ⊎ (0 < n) × ((n == 0) ≡ false)
zero_or_pos n = ground arith

module _ (start : List Job) (latest limit : ℕ) where
  module _ (kernel : Kernel) (stray : Process) (reliable : IsReliable kernel)
      (fits : limit ≤ int_max) where
    running-Entry :
        (s : State) (tr : Trace) (js : List Job) (past : List (Name × ℕ)) (i : ℕ)
        → Occupied start latest limit s tr js past i
        → Entry s.ntime (proc_at stray s.proc s.running) (get_or js i no_job)
    running-Entry s tr js past i o =
        rw o.running (Shows-get s.ntime s.proc js i stray no_job o.facts.shown o.inside)

    abbrev idle : State → State
    idle s = record s { running = none; finish_cnt = s.finish_cnt + 1 }

    abbrev afterwards : State → M (Round State)
    afterwards s =
        if s.finish_cnt + 1 == length s.proc
        then pure (break (idle s))
        else advance kernel stray (idle s)

    reap-Progress :
        (s : State) (tr : Trace) (js : List Job) (past : List (Name × ℕ)) (i : ℕ)
        → Occupied start latest limit s tr js past i
        → (get_or js i no_job).left ≡ 0
        → Returns (reap kernel stray s) tr (Goal start latest limit s)
    unfolding reap
    reap-Progress s tr js past i o over =
        step_rule (waitpid p.pid) (λ _. say (reaped p.name p.pid) >> afterwards s) refl
          (step_rule (say (reaped p.name p.pid)) (λ _. afterwards s) refl
            (elim (Bool-cases (s.finish_cnt + 1 == length s.proc)) [
              | inl last ↦ rw last (
                  pure_rule (break (idle s)) tr' (record {
                    all_done = (==_iff (s.finish_cnt + 1) (length s.proc)).0 last;
                    in_time = omega (arith, o.facts.budget.room);
                    out = past';
                    reports = reports;
                    plan =
                        rw append-nil at
                          (plan [] (all_over (ground (arith, last, all_done, same_length))));
                  }))
              | inr more ↦ rw more (
                  advance-Vacant start latest limit kernel stray reliable fits (idle s) tr' js past'
                    (record {
                      facts = record {
                        shown = o.facts.shown;
                        budget = o.facts.budget;
                        reports = reports;
                      };
                      vacant = refl;
                      counted = all_done;
                      undone = ground (arith, more, all_done, same_length, done_count-le js);
                      plan = plan;
                    }))
            ]))
      where
        p : Process
        p = proc_at stray s.proc s.running

        j : Job
        j = get_or js i no_job

        past' : List (Name × ℕ)
        past' = past ++ (j.name, s.ntime) ∷ []

        tr' : Trace
        tr' = print (reaped p.name p.pid) ∷ wait_call p.pid ∷ tr

        same_length : length s.proc ≡ length js
        same_length = Shows-length s.ntime s.proc js o.facts.shown

        all_done : s.finish_cnt + 1 ≡ done_count js
        all_done = ground (arith, o.counted, over)

        reports : seen tr' ≡ (s.ntime, past')
        reports =
            ap₂ (λ (v : ℕ × List (Name × ℕ)) (n : Name). (v.0, v.1 ++ (n, v.0) ∷ []))
              o.facts.reports (running-Entry s tr js past i o).name_shown

        unchanged : finish js i ≡ js
        unchanged = ap (λ l. set js i (record j { left = l })) (sym over) ∙ set-get_or js i no_job

        now : s.ntime + j.left ≡ s.ntime
        now = omega arith

        plan : (out : List (Name × ℕ)) → Plan s.ntime js out → Plan 0 start (past' ++ out)
        plan out r =
            rw (append_assoc past ((j.name, s.ntime) ∷ []) out)
              (rw now at (o.plan out (rw (unchanged, now) r)))

    pub round-Progress :
        (s : State) (tr : Trace)
        → Inv start latest limit s tr
        → Returns (round kernel stray s) tr (Goal start latest limit s)
    unfolding round
    round-Progress s tr (vacant_at js past v) =
        rw (is_over-idle kernel stray s v.vacant)
          (advance-Vacant start latest limit kernel stray reliable fits s tr js past v)
    round-Progress s tr (occupied_at js past i o) = elim (zero_or_pos (get_or js i no_job).left) [
      | inl (none_left, test') ↦ rw (test, test') (reap-Progress s tr js past i o none_left)
      | inr (left, test') ↦
          rw (test, test')
            (advance-Occupied start latest limit kernel stray reliable fits s tr js past i o left)
    ]
      where
        test : over kernel stray s ≡ ((get_or js i no_job).left == 0)
        test =
            is_over-busy kernel stray s i (get_or js i no_job).left o.running
              (rw o.running at (running-Entry s tr js past i o)).exec_shown
