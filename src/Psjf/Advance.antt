-- ===== src/Psjf/Advance.antt =====
-- A round of PSJF's loop behind the test for the end of the running process.
use mathlib.Core.List.{append_assoc}
use os_project.Prelude.{
  ℕ, ◌+◌, ◌-◌, ◌<◌, ◌≡◌, refl, ap, ◌∙◌, inl, inr, Option, none, some, List, [], ◌∷◌, ◌++◌,
  Bool-cases, ◌==◌, lt→ltb, ℤ, pos, eq_ℤ, get_or, set, length, length-append, arith,
}
use os_project.Process.{Process}
use os_project.Process.Jobs.{
  Job, no_job, can_run, Pointwise, Pointwise-get, Pointwise-set, Pointwise-map,
  Pointwise-append_one,
}
use os_project.Process.Work.{
  Budget, Budget-idle, Budget-run, spend, done_count, done_count-spend, left-le-total_left,
}
use os_project.Process.Waiting.{NoneWaits, Shortest}
use os_project.Os.{
  Trace, Kernel, IsReliable, int_max, M, ◌>>=◌, ◌>>◌, pure, spin, increment, decrement,
}
use os_project.Os.Loop.{Round, again}
use os_project.Os.Triple.{Returns, bind_rule, step_rule, run_rule, pure_rule}
use os_project.Psjf.{
  State, unit_time, some_process_is_ready, find_min_index, switch, account, run_process, select,
}
use os_project.Psjf.Waiting.{Entry, Shows, some_process_is_ready-NoneWaits, find_min_index-Shortest}
use os_project.Psjf.Steps.{seen, Calm, switch-seen}
use os_project.Psjf.Timeline.{Timeline, wait, run, Ran, Ran-spend}
use os_project.Psjf.Invariant.{Inv, Goal, at_head}

module _ (start : List Job) (latest limit : ℕ) (stray : Process) where
  module _ (kernel : Kernel) (reliable : IsReliable kernel) (fits : limit < int_max) where
    -- The end of a tick.
    abbrev pub close : State → M (Round State)
    close s = unit_time >> (increment s.time >>= λ time. pure (again (record s { time = time })))

    close_run :
        (s : State) (tr : Trace)
        → s.time < int_max
        → close s tr ≡ pure (again (record s { time = s.time + 1 })) (spin 10000000 ∷ tr)
    unfolding unit_time
    close_run s tr lt = rw (lt→ltb s.time int_max lt)

    module _ (s : State) (js : List Job) (ran : List (Option ℕ)) (pids : List ℤ)
        (budget : Budget latest limit s.time js) (units : length pids ≡ s.time)
        (plan : (out : List (Option ℕ)) → Timeline s.time js out → Timeline 0 start (ran ++ out))
        (undone : done_count js < length js) (ps : List Process) (shown : Shows (s.time + 1) ps js)
        (history : Pointwise (Ran stray (s.time + 1) ps js) ran pids) where
      abbrev arrived : State
      arrived = record s { proc = ps }

      idle_tick :
          (tr : Trace)
          → s.finished_process ≡ done_count js
          → seen tr ≡ (s.pre_running, pids)
          → NoneWaits s.time js
          → Returns (close arrived) tr (Goal start latest limit stray s)
      idle_tick tr counted calm idle =
          run_rule (close arrived) (close_run arrived tr (omega (arith, later))) (
            at_head js (ran ++ none ∷ []) (pids ++ s.pre_running ∷ []) (record {
              shown = shown;
              budget = later.0;
              counted = counted;
              calm = (ap (λ (v : ℤ × List ℤ). (v.0, v.1 ++ v.0 ∷ [])) calm, refl);
              units = omega (arith, length-append pids (s.pre_running ∷ []), units);
              history =
                  Pointwise-append_one (Ran stray (s.time + 1) ps js) ran pids none s.pre_running
                    history tt;
              plan = λ out t.
                  rw (append_assoc ran (none ∷ []) out) (plan (none ∷ out) (wait undone idle t));
            }),
            omega (arith, later),
          )
        where
          later : Budget latest limit (s.time + 1) js × (s.time < limit)
          later = Budget-idle no_job budget undone idle

      module _ (i : ℕ) (short : Shortest s.time js i) where
        abbrev chosen : Job
        chosen = get_or js i no_job

        abbrev p : Process
        p = get_or ps i stray

        abbrev js' : List Job
        js' = set js i (spend chosen)

        left : 0 < chosen.left
        left = ground (arith, short.waits)

        early : chosen.arrival < s.time + 1
        early = ground (arith, short.waits)

        entry : Entry (s.time + 1) p chosen
        entry = Pointwise-get (Entry (s.time + 1)) ps js i stray no_job shown short.inside

        later : Budget latest limit (s.time + 1) js' × (s.time < limit)
        later = Budget-run no_job budget i short.inside left

        -- The table after the unit of time, with `q` for the process that had it.
        ran_Inv :
            (q : Process) (n : ℕ) (tr : Trace)
            → q.pid ≡ p.pid
            → Entry (s.time + 1) q (spend chosen)
            → n ≡ done_count js'
            → seen tr ≡ (p.pid, pids)
            → Inv start latest limit stray
                (record {
                  proc = set ps i q;
                  time = s.time + 1;
                  pre_running = p.pid;
                  running = p.pid;
                  finished_process = n;
                })
                (spin 10000000 ∷ tr)
        ran_Inv q n tr same_pid shown' counted elected =
            at_head js' (ran ++ some i ∷ []) (pids ++ p.pid ∷ []) (record {
              shown = Pointwise-set (Entry (s.time + 1)) ps js i q (spend chosen) shown shown';
              budget = later.0;
              counted = counted;
              calm = (ap (λ (v : ℤ × List ℤ). (v.0, v.1 ++ v.0 ∷ [])) elected, refl);
              units = omega (arith, length-append pids (p.pid ∷ []), units);
              history =
                  Pointwise-append_one (Ran stray (s.time + 1) (set ps i q) js') ran pids (some i)
                    p.pid
                    (Pointwise-map (Ran stray (s.time + 1) ps js)
                      (Ran stray (s.time + 1) (set ps i q) js')
                      (Ran-spend stray (s.time + 1) ps js i q same_pid) ran pids history)
                    (Ran-spend stray (s.time + 1) ps js i q same_pid (some i) p.pid
                      (short.inside, early, refl));
              plan = λ out t.
                  rw (append_assoc ran (some i ∷ []) out) (plan (some i ∷ out) (run i short t));
            })

        spent :
            (q : Process)
            → q.name ≡ p.name
            → q.ready ≡ p.ready
            → q.exec ≡ pos (chosen.left - 1)
            → eq_ℤ q.waiting (pos 1) ≡ can_run (s.time + 1) (spend chosen)
            → Entry (s.time + 1) q (spend chosen)
        spent q name ready exec waiting = record {
          name_shown = name ∙ entry.name_shown;
          ready_shown = ready ∙ entry.ready_shown;
          exec_shown = exec;
          waiting_shown = waiting;
          untouched = λ late. absurd (omega (arith, early));
        }

        accounted_Inv :
            (tr : Trace)
            → s.finished_process ≡ done_count js
            → seen tr ≡ (p.pid, pids)
            → Inv start latest limit stray
                (record (account kernel arrived i p (pos (chosen.left - 1))) { time = s.time + 1 })
                (spin 10000000 ∷ tr)
        unfolding account
        accounted_Inv tr counted elected = elim (Bool-cases ((chosen.left - 1) == 0)) [
          | inl last ↦ rw last (
              ran_Inv (record p { exec = pos (chosen.left - 1); waiting = pos 0 })
                (s.finished_process + 1) tr refl
                (spent (record p { exec = pos (chosen.left - 1); waiting = pos 0 }) refl refl refl
                  (ground (arith, last)))
                (ground
                  (arith, last, left, counted, done_count-spend no_job js i short.inside left))
                elected)
          | inr more ↦ rw more (
              ran_Inv (record p { exec = pos (chosen.left - 1) }) s.finished_process tr refl
                (spent (record p { exec = pos (chosen.left - 1) }) refl refl refl
                  (entry.waiting_shown ∙ ground (arith, more, early, left)))
                (ground
                  (arith, more, left, counted, done_count-spend no_job js i short.inside left))
                elected)
        ]

        close-account :
            (tr : Trace)
            → close (account kernel arrived i p (pos (chosen.left - 1))) tr
              ≡ pure
                  (again (record (account kernel arrived i p (pos (chosen.left - 1))) {
                    time = s.time + 1;
                  }))
                  (spin 10000000 ∷ tr)
        unfolding account
        close-account tr = elim (Bool-cases ((chosen.left - 1) == 0)) [
          | inl e ↦ rw e (close_run _ tr (omega (arith, later)))
          | inr e ↦ rw e (close_run _ tr (omega (arith, later)))
        ]

        decrement_left : (n : ℕ) (tr : Trace) → 0 < n → decrement (pos n) tr ≡ pure (pos (n - 1)) tr
        decrement_left n tr lt = ground arith

        decrement_exec : (tr : Trace) → decrement p.exec tr ≡ pure (pos (chosen.left - 1)) tr
        decrement_exec tr = rw entry.exec_shown (decrement_left chosen.left tr left)

        run_tick :
            (tr : Trace)
            → s.finished_process ≡ done_count js
            → Calm (s.pre_running, pids) tr
            → Returns
                (run_process kernel stray arrived i >>= close)
                tr
                (Goal start latest limit stray s)
        unfolding run_process
        run_tick tr counted calm =
            bind_rule (run_process kernel stray arrived i) close
              {Mid = λ s' tr'.
                (s' ≡ account kernel arrived i p (pos (chosen.left - 1)))
                × (seen tr' ≡ (p.pid, pids))}
              (bind_rule (switch kernel p.pid s.pre_running)
                (λ _. decrement p.exec >>= λ left. pure (account kernel arrived i p left))
                (switch-seen kernel p.pid s.pre_running pids tr calm)
                λ _ tr' elected.
                  step_rule (decrement p.exec) (λ left. pure (account kernel arrived i p left))
                    (decrement_exec tr')
                    (pure_rule (account kernel arrived i p (pos (chosen.left - 1))) tr'
                      (refl, elected)))
              λ s' tr' (e, elected). rw e (
                run_rule (close (account kernel arrived i p (pos (chosen.left - 1))))
                  (close-account tr') (accounted_Inv tr' counted elected, omega (arith, later)))

      small : (k : ℕ) → k < length js → (get_or js k no_job).left < int_max
      small k lt = omega (arith, left-le-total_left no_job js k lt, budget.room, fits)

      pub select_tick :
          (tr : Trace)
          → s.finished_process ≡ done_count js
          → Calm (s.pre_running, pids) tr
          → Returns (select kernel stray arrived >>= close) tr (Goal start latest limit stray s)
      unfolding select
      select_tick tr counted calm = elim (Bool-cases (some_process_is_ready ps)) [
        | inl ready ↦ rw ready (
            run_tick (find_min_index ps)
              (find_min_index-Shortest s.time js stray ps shown small ready) tr counted calm)
        | inr none_ready ↦ rw none_ready (
            step_rule (pure arrived) close refl (
              idle_tick tr counted calm.0
                (some_process_is_ready-NoneWaits s.time js stray ps shown small none_ready)))
      ]
