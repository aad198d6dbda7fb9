-- ===== src/Rr/Awake/Rounds.antt =====
-- RR.c, the body of the loop: who is awake behind a round.
use os_project.Prelude.{
  ℕ, ◌+◌, ◌+ℤ◌, ◌-ℤ◌, ◌≡◌, refl, Option, none, List, ◌∷◌, ◌==◌, ℤ, pos, if◌then◌else◌, length,
}
use os_project.Process.{Process, proc_at}
use os_project.Process.Awake.{OnlyRunning, owner, nobody_left, OnlyRunning-switch}
use os_project.Os.{
  Trace, Kernel, M, ◌>>=◌, ◌>>◌, pure, say, print, wait_call, sched_other, finish_at, waitpid,
  checked,
}
use os_project.Os.Loop.{Round, break}
use os_project.Os.Keeps.{Keeps, pure_keeps, step_keeps, if_keeps, bind_keeps, checked_keeps, Again}
use os_project.Os.Awake.{Owner, Within-wait}
use os_project.Rr.{
  State, rr_next, arrivals, switch, pass, advance, is_over, longer_wait, reap, round,
}
use os_project.Rr.Awake.Control.{Safe}
use os_project.Rr.Awake.Choice.{rr_next_keeps}
use os_project.Rr.Awake.Steps.{switch_keeps, pass_keeps, arrivals_keeps, Inv}

module _ (kernel : Kernel) (stray : Process) (me : ℤ) where
  advance_keeps :
      (s : State) (tr : Trace)
      → Safe me tr
      → Inv kernel stray me s tr
      → Keeps (Safe me) (advance kernel stray s) tr (Again (Safe me) (Inv kernel stray me))
  unfolding advance
  advance_keeps s tr safe o =
      bind_keeps (Safe me) (arrivals kernel stray s.time_now s.proc) chosen tr
        (arrivals_keeps kernel stray me s tr safe o)
        λ ps tr' safe' o'.
          bind_keeps (Safe me) (rr_next kernel stray (arrived ps)) (switched ps) tr'
            (rr_next_keeps kernel stray me (arrived ps) s.running tr'
              (Owner (owner stray ps s.running)) refl safe' o'.within o'.started)
            λ next tr'' safe'' (started, within).
              bind_keeps (Safe me) (switch kernel stray (arrived ps) next) (pass kernel stray) tr''
                (switch_keeps kernel stray me (arrived ps) next tr'' (s.time_now + 1) safe''
                  (OnlyRunning-switch me sched_other stray (s.time_now + 1) ps s.running s.running
                    tr' tr'' o' o'.started within)
                  started)
                λ s' tr3 safe3 (now, o3). pass_keeps kernel stray me s' tr3 safe3 (rw now o3)
    where
      arrived : List Process → State
      arrived ps = record s { proc = ps }

      switched : List Process → Option ℕ → M (Round State)
      switched ps next = switch kernel stray (arrived ps) next >>= pass kernel stray

      chosen : List Process → M (Round State)
      chosen ps = rr_next kernel stray (arrived ps) >>= switched ps

  longer_wait_keeps :
      (s : State) (p : Process) (tr : Trace)
      → Safe me tr
      → Keeps (Safe me) (longer_wait kernel stray s p) tr (λ _ tr'. tr' ≡ tr)
  unfolding longer_wait
  longer_wait_keeps s p tr safe =
      bind_keeps (Safe me) (checked (s.wait +ℤ pos s.time_now))
        (λ sum. checked (sum -ℤ p.ready) >>= λ since. checked (since -ℤ p.exec)) tr
        (checked_keeps (Safe me) (s.wait +ℤ pos s.time_now) tr safe refl)
        λ sum tr' safe' same.
          bind_keeps (Safe me) (checked (sum -ℤ p.ready)) (λ since. checked (since -ℤ p.exec)) tr'
            (checked_keeps (Safe me) (sum -ℤ p.ready) tr' safe' same)
            λ since tr'' safe'' same'. checked_keeps (Safe me) (since -ℤ p.exec) tr'' safe'' same'

  -- A process that has been waited for is awake no more.
  reap_keeps :
      (s : State) (tr : Trace)
      → Safe me tr
      → Inv kernel stray me s tr
      → Keeps (Safe me) (reap kernel stray s) tr (Again (Safe me) (Inv kernel stray me))
  unfolding reap
  reap_keeps s tr safe o =
      step_keeps (Safe me) (waitpid gone.pid) (λ _. told) refl
        (step_keeps (Safe me) (say (finish_at gone.name gone.pid s.time_now)) (λ _. summed) refl
          (bind_keeps (Safe me) (longer_wait kernel stray s gone) ended after
            (longer_wait_keeps s gone after safe)
            λ wait tr' safe' same.
              if_keeps (Safe me) (s.finish_cnt + 1 == length s.proc) (pure (break (idle wait)))
                (advance kernel stray (idle wait)) tr'
                (λ _. pure_keeps (Safe me) (break (idle wait)) tr' safe' tt)
                (λ _. advance_keeps (idle wait) tr' safe' (rw same vacant))))
    where
      gone : Process
      gone = proc_at stray s.proc s.running

      after : Trace
      after = print (finish_at gone.name gone.pid s.time_now) ∷ wait_call gone.pid ∷ tr

      idle : ℤ → State
      idle wait = record s { running = none; finish_cnt = s.finish_cnt + 1; wait = wait }

      ended : ℤ → M (Round State)
      ended wait =
          if s.finish_cnt + 1 == length s.proc
          then pure (break (idle wait))
          else advance kernel stray (idle wait)

      summed : M (Round State)
      summed = longer_wait kernel stray s gone >>= ended

      told : M (Round State)
      told = say (finish_at gone.name gone.pid s.time_now) >> summed

      vacant : OnlyRunning me sched_other stray s.time_now s.proc none after
      vacant =
          OnlyRunning-switch me sched_other stray s.time_now s.proc s.running none tr after o tt
            λ a holds other. nobody_left stray s.proc s.running a (
              Within-wait me sched_other (Owner (owner stray s.proc s.running)) tr o.within gone.pid
                a holds other)

  pub round_keeps :
      (s : State) (tr : Trace)
      → Safe me tr
      → Inv kernel stray me s tr
      → Keeps (Safe me) (round kernel stray s) tr (Again (Safe me) (Inv kernel stray me))
  unfolding round
  round_keeps s tr safe o =
      if_keeps (Safe me) (is_over kernel stray s) (reap kernel stray s) (advance kernel stray s) tr
        (λ _. reap_keeps s tr safe o) (λ _. advance_keeps s tr safe o)
