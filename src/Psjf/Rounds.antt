-- ===== src/Psjf/Rounds.antt =====
-- One round of PSJF's loop follows the specification.
use mathlib.Core.List.{append-nil}
use os_project.Prelude.{
  ℕ, ◌+◌, ◌<◌, ◌≡◌, ap, inl, inr, Option, List, [], Bool-cases, ◌==◌, ==_iff, ℤ, length, arith,
}
use os_project.Process.{Process}
use os_project.Process.Jobs.{Job, Pointwise-length, Pointwise-map}
use os_project.Process.Work.{done_count, done_count-le}
use os_project.Os.{Trace, Kernel, IsReliable, int_max, ◌>>=◌}
use os_project.Os.Loop.{break}
use os_project.Os.Triple.{Returns, bind_rule, pure_rule}
use os_project.Psjf.{State, arrivals, select, tick, round}
use os_project.Psjf.Waiting.{Entry}
use os_project.Psjf.Steps.{seen, arrivals-Shows}
use os_project.Psjf.Timeline.{all_over, HasPid, Ran, Ran-HasPid, Ran-arrivals}
use os_project.Psjf.Invariant.{Facts, Inv, Goal, at_head}
use os_project.Psjf.Advance.{select_tick, close}

module _ (start : List Job) (latest limit : ℕ) (stray : Process) where
  module _ (kernel : Kernel) (reliable : IsReliable kernel) (fits : limit < int_max) where
    tick-Progress :
        (s : State) (tr : Trace) (js : List Job) (ran : List (Option ℕ)) (pids : List ℤ)
        → Facts start latest limit stray s tr js ran pids
        → done_count js < length js
        → Returns (tick kernel stray s) tr (Goal start latest limit stray s)
    unfolding tick
    tick-Progress s tr js ran pids f undone =
        bind_rule (arrivals kernel s.time s.proc)
          (λ ps.
            select kernel stray (record s { proc = ps })
            >>= close start latest limit stray kernel reliable fits)
          (arrivals-Shows kernel reliable s.time (s.pre_running, pids) s.proc js tr f.shown f.calm)
          λ ps tr' (shown, kept, calm).
            select_tick start latest limit stray kernel reliable fits s js ran pids f.budget f.units
              f.plan undone ps shown
              (Pointwise-map (Ran stray s.time s.proc js) (Ran stray (s.time + 1) ps js)
                (Ran-arrivals stray s.time s.proc ps js f.shown kept) ran pids f.history)
              tr' f.counted calm

    pub round-Progress :
        (s : State) (tr : Trace)
        → Inv start latest limit stray s tr
        → Returns (round kernel stray s) tr (Goal start latest limit stray s)
    unfolding round
    round-Progress s tr (at_head js ran pids f) =
        elim (Bool-cases (s.finished_process == length s.proc)) [
          | inl last ↦ rw last (
              pure_rule (break s) tr (record {
                all_done = (==_iff s.finished_process (length s.proc)).0 last;
                in_time = omega (arith, f.budget.room);
                ran = ran;
                units = rw pids_seen f.units;
                plan =
                    rw append-nil at
                      (f.plan [] (all_over (ground (arith, last, f.counted, same_length))));
                history = rw pids_seen (
                    Pointwise-map (Ran stray s.time s.proc js) (HasPid stray s.proc)
                      (Ran-HasPid stray s.time s.proc js) ran pids f.history);
              }))
          | inr more ↦ rw more (
              tick-Progress s tr js ran pids f
                (ground (arith, more, f.counted, same_length, done_count-le js)))
        ]
      where
        same_length : length s.proc ≡ length js
        same_length = Pointwise-length (Entry s.time) s.proc js f.shown

        pids_seen : (seen tr).1 ≡ pids
        pids_seen = ap (λ (v : ℤ × List ℤ). v.1) f.calm.0
