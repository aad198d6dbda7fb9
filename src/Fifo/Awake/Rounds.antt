-- ===== src/Fifo/Awake/Rounds.antt =====
-- FIFO.c, the body of the loop: who is awake behind a round.
use os_project.Prelude.{ℕ, ◌+◌, refl, Option, none, List, ◌∷◌, ◌==◌, ℤ, if◌then◌else◌, length}
use os_project.Process.{Process, proc_at}
use os_project.Process.Awake.{OnlyRunning, owner, nobody_left, OnlyRunning-switch}
use os_project.Os.{
  Trace, Kernel, M, ◌>>=◌, ◌>>◌, pure, say, print, wait_call, sched_other, ended, waitpid,
}
use os_project.Os.Loop.{Round, break}
use os_project.Os.Keeps.{Keeps, pure_keeps, step_keeps, if_keeps, bind_keeps, Again}
use os_project.Os.Awake.{Owner, Within-wait}
use os_project.Fifo.{State, next_proc, arrivals, switch, pass, advance, is_over, reap, round}
use os_project.Fifo.Awake.Control.{Safe}
use os_project.Fifo.Awake.Choice.{next_proc-IsStarted}
use os_project.Fifo.Awake.Steps.{switch_keeps, pass_keeps, arrivals_keeps, Inv}

module _ (kernel : Kernel) (stray : Process) (me : ℤ) where
  advance_keeps :
      (s : State) (tr : Trace)
      → Safe me tr
      → Inv kernel stray me s tr
      → Keeps (Safe me) (advance kernel stray s) tr (Again (Safe me) (Inv kernel stray me))
  unfolding advance
  advance_keeps s tr safe o =
      bind_keeps (Safe me) (arrivals kernel stray s.time_cnt s.proc) chosen tr
        (arrivals_keeps kernel stray me s tr safe o)
        λ ps tr' safe' o'.
          bind_keeps (Safe me) (switch kernel stray (arrived ps) (next ps))
            (pass kernel stray (arrived ps)) tr'
            (switch_keeps kernel stray me (arrived ps) (next ps) tr' (s.time_cnt + 1) safe' o'
              (next_proc-IsStarted kernel stray (arrived ps) s.running refl o'.started))
            λ running tr'' safe'' o''.
              pass_keeps kernel stray me (arrived ps) running tr'' safe'' o''
    where
      arrived : List Process → State
      arrived ps = record s { proc = ps }

      next : List Process → Option ℕ
      next ps = next_proc kernel stray (arrived ps)

      chosen : List Process → M (Round State)
      chosen ps = switch kernel stray (arrived ps) (next ps) >>= pass kernel stray (arrived ps)

  -- A process that has been waited for is awake no more.
  reap_keeps :
      (s : State) (tr : Trace)
      → Safe me tr
      → Inv kernel stray me s tr
      → Keeps (Safe me) (reap kernel stray s) tr (Again (Safe me) (Inv kernel stray me))
  unfolding reap
  reap_keeps s tr safe o =
      step_keeps (Safe me) (waitpid gone.pid) (λ _. told) refl
        (step_keeps (Safe me) (say (ended gone.name s.time_cnt)) (λ _. rest) refl
          (if_keeps (Safe me) (s.finish + 1 == length s.proc) (pure (break idle))
            (advance kernel stray idle) after (λ _. pure_keeps (Safe me) (break idle) after safe tt)
            (λ _. advance_keeps idle after safe vacant)))
    where
      gone : Process
      gone = proc_at stray s.proc s.running

      after : Trace
      after = print (ended gone.name s.time_cnt) ∷ wait_call gone.pid ∷ tr

      idle : State
      idle = record s { running = none; finish = s.finish + 1 }

      rest : M (Round State)
      rest = if s.finish + 1 == length s.proc then pure (break idle) else advance kernel stray idle

      told : M (Round State)
      told = say (ended gone.name s.time_cnt) >> rest

      vacant : OnlyRunning me sched_other stray s.time_cnt s.proc none after
      vacant =
          OnlyRunning-switch me sched_other stray s.time_cnt s.proc s.running none tr after o tt
            λ a holds other. nobody_left stray s.proc s.running a (
              Within-wait me sched_other (Owner (owner stray s.proc s.running)) tr o.within gone.pid
                a holds other)

  pub round_keeps :
      (s : State) (tr : Trace)
      → Safe me tr
      → Inv kernel stray me s tr
      → Keeps (Safe me) (round kernel stray s) tr (Again (Safe me) (Inv kernel stray me))
  unfolding round
  round_keeps s tr safe o =
      if_keeps (Safe me) (is_over kernel stray s) (reap kernel stray s) (advance kernel stray s) tr
        (λ _. reap_keeps s tr safe o) (λ _. advance_keeps s tr safe o)
