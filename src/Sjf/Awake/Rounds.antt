-- ===== src/Sjf/Awake/Rounds.antt =====
-- SJF.c, the body of the loop: who holds SCHED_FIFO behind a round.
use os_project.Prelude.{
  ℕ, ◌+◌, ◌≡◌, ==-self, false, arith, refl, some, Option, none, List, ◌∷◌, ◌==◌, ℤ, if◌then◌else◌,
  length,
}
use os_project.Process.{Process, proc_at, same_index, least_by}
use os_project.Process.Awake.{
  OnlyRunning, IsStarted, FirstLeast-IsStarted, owner, nobody_left, OnlyRunning-switch,
}
use os_project.Os.{
  Trace, Kernel, M, ◌>>=◌, ◌>>◌, pure, say, print, wait_call, sched_fifo, reaped, waitpid,
}
use os_project.Os.Loop.{Round, break}
use os_project.Os.Keeps.{Keeps, pure_keeps, step_keeps, if_keeps, bind_keeps, Again}
use os_project.Os.Awake.{Owner, Within-wait}
use os_project.Sjf.{State, choose, arrivals, switch, pass, advance, is_over, reap, round}
use os_project.Sjf.Awake.Control.{Safe}
use os_project.Process.Select.{least_by-FirstLeast}
use os_project.Sjf.Awake.Steps.{switch_keeps, pass_keeps, arrivals_keeps, Inv}

module _ (kernel : Kernel) (stray : Process) (me : ℤ) where
  choose-IsStarted :
      (s : State) (running : Option ℕ)
      → s.running ≡ running
      → IsStarted stray s.proc running
      → IsStarted stray s.proc (choose kernel stray s)
        × (same_index running (choose kernel stray s) ≡ false → running ≡ none)
  unfolding choose
  choose-IsStarted s none e started = (
    rw e (
        FirstLeast-IsStarted (λ p. p.exec) stray s.proc (least_by (λ p. p.exec) stray s.proc)
          (least_by-FirstLeast (λ p. p.exec) stray s.proc)),
    λ differs. refl,
  )
  choose-IsStarted s (some i) e started =
      rw e (started, λ differs. let same = ==-self i in absurd (ground (arith, same, differs)))

  advance_keeps :
      (s : State) (tr : Trace)
      → Safe me tr
      → Inv kernel stray me s tr
      → Keeps (Safe me) (advance kernel stray s) tr (Again (Safe me) (Inv kernel stray me))
  unfolding advance
  advance_keeps s tr safe o =
      bind_keeps (Safe me) (arrivals kernel stray s.ntime s.proc) chosen tr
        (arrivals_keeps kernel stray me s tr safe o)
        λ ps tr' safe' o'.
          let (started, vacant) = choose-IsStarted (arrived ps) s.running refl o'.started in
          bind_keeps (Safe me) (switch kernel stray (arrived ps) (next ps)) (pass kernel stray) tr'
            (switch_keeps kernel stray me (arrived ps) (next ps) tr' (s.ntime + 1) safe' o' started
              vacant)
            λ s' tr'' safe'' (now, o''). pass_keeps kernel stray me s' tr'' safe'' (rw now o'')
    where
      arrived : List Process → State
      arrived ps = record s { proc = ps }

      next : List Process → Option ℕ
      next ps = choose kernel stray (arrived ps)

      chosen : List Process → M (Round State)
      chosen ps = switch kernel stray (arrived ps) (next ps) >>= pass kernel stray

  -- A process that has been waited for is awake no more.
  reap_keeps :
      (s : State) (tr : Trace)
      → Safe me tr
      → Inv kernel stray me s tr
      → Keeps (Safe me) (reap kernel stray s) tr (Again (Safe me) (Inv kernel stray me))
  unfolding reap
  reap_keeps s tr safe o =
      step_keeps (Safe me) (waitpid gone.pid) (λ _. told) refl
        (step_keeps (Safe me) (say (reaped gone.name gone.pid)) (λ _. rest) refl
          (if_keeps (Safe me) (s.finish_cnt + 1 == length s.proc) (pure (break idle))
            (advance kernel stray idle) after (λ _. pure_keeps (Safe me) (break idle) after safe tt)
            (λ _. advance_keeps idle after safe vacant)))
    where
      gone : Process
      gone = proc_at stray s.proc s.running

      after : Trace
      after = print (reaped gone.name gone.pid) ∷ wait_call gone.pid ∷ tr

      idle : State
      idle = record s { running = none; finish_cnt = s.finish_cnt + 1 }

      rest : M (Round State)
      rest =
          if s.finish_cnt + 1 == length s.proc then pure (break idle) else advance kernel stray idle

      told : M (Round State)
      told = say (reaped gone.name gone.pid) >> rest

      vacant : OnlyRunning me sched_fifo stray s.ntime s.proc none after
      vacant =
          OnlyRunning-switch me sched_fifo stray s.ntime s.proc s.running none tr after o tt
            λ a holds other. nobody_left stray s.proc s.running a (
              Within-wait me sched_fifo (Owner (owner stray s.proc s.running)) tr o.within gone.pid
                a holds other)

  pub round_keeps :
      (s : State) (tr : Trace)
      → Safe me tr
      → Inv kernel stray me s tr
      → Keeps (Safe me) (round kernel stray s) tr (Again (Safe me) (Inv kernel stray me))
  unfolding round
  round_keeps s tr safe o =
      if_keeps (Safe me) (is_over kernel stray s) (reap kernel stray s) (advance kernel stray s) tr
        (λ _. reap_keeps s tr safe o) (λ _. advance_keeps s tr safe o)
