-- ===== src/Rr/Advance/Run.antt =====
-- The chosen job runs for a unit of time, with a context switch or without one.
use os_project.Prelude.{
  ℕ, ◌+◌, ◌-◌, ◌*◌, ◌≤◌, ◌<◌, ◌≡◌, refl, ap, ◌∙◌, some, List, true, false, pos, get_or, length,
  length-set, get_or-set_self, arith,
}
use os_project.Process.{Process, Name, same_index}
use os_project.Process.Jobs.{Job, no_job, Entry, Shows, can_run, Shows-get, Shows-set}
use os_project.Process.Work.{Budget, Budget-run, spend, done_count, done_count-spend}
use os_project.Os.{Trace, Kernel, IsReliable, int_max, ◌>>=◌}
use os_project.Os.Triple.{Returns, bind_rule, step_rule, run_rule}
use os_project.Rr.{State, switch, pass}
use os_project.Rr.Turns.{runs, Choice, use_unit}
use os_project.Rr.History.{use_unit-Keeps}
use os_project.Rr.Control.Laws.{seen}
use os_project.Rr.Steps.{switch-stay, switch-change, pass_run}
use os_project.Rr.Invariant.{Facts, Goal, occupied_at}

module _ (start : List Job) (latest limit : ℕ) where
  module _ (kernel : Kernel) (stray : Process) (reliable : IsReliable kernel)
      (fits : limit ≤ int_max) (sum_fits : length start * limit ≤ int_max) where
    -- Job `i`, which was chosen in the state `s`, runs for a unit of time from the state `c` on.
    run_on :
        (s c : State) (tr tr' : Trace) (js : List Job) (past : List (ℕ × ℕ)) (i : ℕ)
        → Facts start latest limit s tr js past
        → seen tr' ≡ seen tr
        → Shows (s.time_now + 1) c.proc js
        → c.running ≡ some i
        → c.time_now ≡ s.time_now
        → c.finish_cnt ≡ s.finish_cnt
        → c.wait ≡ s.wait
        → s.finish_cnt ≡ done_count js
        → Choice s.time_now js s.running s.time_last i c.time_last
        → i < length js
        → can_run (s.time_now + 1) (get_or js i no_job) ≡ true
        → Returns (pass kernel stray c) tr' (Goal start latest limit s)
    run_on s c tr tr' js past i f q shown busy now_eq finish_eq wait_eq counted choice inside
          waits =
        run_rule (pass kernel stray c)
          (pass_run kernel stray c i (j.left - 1) tr' busy (omega (arith, budget'))
            (entry.exec_shown ∙ ap pos (omega (arith, left))))
          (
            occupied_at js' past i (record {
              facts = record {
                shown = rw now_eq (Shows-set (s.time_now + 1) c.proc js i _ (spend j) shown entry');
                budget = rw now_eq budget'.0;
                keeps = use_unit-Keeps start js i f.keeps;
                reported =
                    rw now_eq (ap (λ (v : ℕ × List (Name × ℕ)). (v.0 + 1, v.1)) (q ∙ f.reported));
                waited = wait_eq ∙ f.waited;
                bounded = rw finish_eq f.bounded;
                plan = λ out r.
                    f.plan out (runs i c.time_last choice inside left (rw (← now_eq, ← busy) r));
              };
              running = busy;
              inside = omega (arith, length-set js i (spend j));
              come = rw (now_eq, self) (ground (arith, waits));
              counted =
                  rw (finish_eq, self) (ground (arith, done_count-spend no_job js i inside left));
            }),
            omega (arith, budget'),
          )
      where
        j : Job
        j = get_or js i no_job

        js' : List Job
        js' = use_unit js i

        left : 0 < j.left
        left = ground (arith, waits)

        self : get_or js' i no_job ≡ spend j
        self = get_or-set_self js i (spend j) no_job inside

        entry : Entry (s.time_now + 1) (get_or c.proc i stray) j
        entry = Shows-get (s.time_now + 1) c.proc js i stray no_job shown inside

        entry' :
            Entry
              (s.time_now + 1)
              (record (get_or c.proc i stray) { exec = pos (j.left - 1) })
              (spend j)
        entry' = record {
          name_shown = entry.name_shown;
          ready_shown = entry.ready_shown;
          exec_shown = refl;
          pid_shown = entry.pid_shown;
        }

        budget' : Budget latest limit (s.time_now + 1) js' × (s.time_now < limit)
        budget' = Budget-run no_job f.budget i inside left

    -- A context switch to job `i`.
    pub changes :
        (s : State) (tr tr' : Trace) (ps : List Process) (js : List Job) (past : List (ℕ × ℕ))
        (i : ℕ)
        → Facts start latest limit s tr js past
        → seen tr' ≡ seen tr
        → Shows (s.time_now + 1) ps js
        → same_index s.running (some i) ≡ false
        → s.finish_cnt ≡ done_count js
        → Choice s.time_now js s.running s.time_last i s.time_now
        → i < length js
        → can_run (s.time_now + 1) (get_or js i no_job) ≡ true
        → Returns
            (switch kernel stray (record s { proc = ps }) (some i) >>= pass kernel stray)
            tr'
            (Goal start latest limit s)
    changes s tr tr' ps js past i f q shown other counted choice inside waits =
        bind_rule (switch kernel stray arrived (some i)) (pass kernel stray)
          (switch-change kernel stray arrived i tr' other)
          λ c tr'' (e, q'). rw e (
            run_on s (record arrived { running = some i; time_last = s.time_now }) tr tr'' js past i
              f (q' ∙ q) shown refl refl refl refl counted choice inside waits)
      where
        arrived : State
        arrived = record s { proc = ps }

    -- Job `i` stays.
    pub stays :
        (s : State) (tr tr' : Trace) (ps : List Process) (js : List Job) (past : List (ℕ × ℕ))
        (i : ℕ)
        → Facts start latest limit s tr js past
        → seen tr' ≡ seen tr
        → Shows (s.time_now + 1) ps js
        → s.running ≡ some i
        → s.finish_cnt ≡ done_count js
        → Choice s.time_now js s.running s.time_last i s.time_last
        → i < length js
        → can_run (s.time_now + 1) (get_or js i no_job) ≡ true
        → Returns
            (switch kernel stray (record s { proc = ps }) (some i) >>= pass kernel stray)
            tr'
            (Goal start latest limit s)
    stays s tr tr' ps js past i f q shown busy counted choice inside waits =
        step_rule (switch kernel stray arrived (some i)) (pass kernel stray)
          (switch-stay kernel stray arrived i tr' busy)
          (run_on s arrived tr tr' js past i f q shown busy refl refl refl counted choice inside
            waits)
      where
        arrived : State
        arrived = record s { proc = ps }
