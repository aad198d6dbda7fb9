-- ===== src/Sjf/Awake/Steps.antt =====
-- SJF.c, the steps of the loop: who holds SCHED_FIFO behind each of them.
use os_project.Prelude.{
  ℕ, ◌+◌, ◌≡◌, ◌⊎◌, refl, false, inl, inr, Option, none, some, List, ◌∷◌, ℤ, get_or,
}
use os_project.Process.{Process, proc_at, same_index}
use os_project.Process.Awake.{
  OnlyRunning, Arrives, IsStarted, owner, spent, OnlyRunning-arrivals, OnlyRunning-switch,
  OnlyRunning-spent,
}
use os_project.Os.{
  Trace, Kernel, M, ◌>>=◌, pure, sched_fifo, scheduler_call, sched_setscheduler, increment,
  decrement,
}
use os_project.Os.Loop.{Round, again}
use os_project.Os.Keeps.{
  Keeps, pure_keeps, step_keeps, if_keeps, bind_keeps, weaken_keeps, increment_keeps,
  decrement_keeps, for_each_keeps, Again,
}
use os_project.Os.Awake.{Owner, Within-high}
use os_project.Sjf.{unit_t, check, State, arrive, arrivals, switch, run_down, pass}
use os_project.Sjf.Awake.Control.{check_keeps, unit_t_keeps, arrive_keeps, Safe, Awake}

module _ (kernel : Kernel) (stray : Process) (me : ℤ) where
  -- The invariant of the loop.
  abbrev pub Inv : State → Trace → Type 0
  Inv s tr = OnlyRunning me sched_fifo stray s.ntime s.proc s.running tr

  pub switch_keeps :
      (s : State) (next : Option ℕ) (tr : Trace) (now : ℕ)
      → Safe me tr
      → OnlyRunning me sched_fifo stray now s.proc s.running tr
      → IsStarted stray s.proc next
      → (same_index s.running next ≡ false → s.running ≡ none)
      → Keeps (Safe me) (switch kernel stray s next) tr (λ s' tr'.
        (s'.ntime ≡ s.ntime) × OnlyRunning me sched_fifo stray now s'.proc s'.running tr')
  unfolding switch
  switch_keeps s none tr now safe o started vacant = pure_keeps (Safe me) s tr safe (refl, o)
  switch_keeps s (some k) tr now safe o started vacant =
      if_keeps (Safe me) (same_index s.running (some k)) (pure s) raised tr
        (λ _. pure_keeps (Safe me) s tr safe (refl, o))
        λ differs. step_keeps (Safe me) (sched_setscheduler kernel new sched_fifo 99) told refl (
          bind_keeps (Safe me) (check kernel stray answer) (λ _. pure switched) called
            (check_keeps kernel stray me (Owner (some new)) answer called safe
              (alone (owner stray s.proc s.running) (rw (vacant differs) refl) o.within))
            λ _ tr' safe' within'. pure_keeps (Safe me) switched tr' safe' (
              refl,
              OnlyRunning-switch me sched_fifo stray now s.proc s.running (some k) tr tr' o started
                  within',
            ))
    where
      new : ℤ
      new = (proc_at stray s.proc (some k)).pid

      answer : ℤ
      answer = kernel.scheduler_answer new sched_fifo 99 tr

      called : Trace
      called = scheduler_call new sched_fifo 99 ∷ tr

      switched : State
      switched = record s { running = some k; t_last = s.ntime }

      told : ℤ → M State
      told ret_3 = check kernel stray ret_3 >>= λ _. pure switched

      raised : M State
      raised = sched_setscheduler kernel new sched_fifo 99 >>= told

      only : (a : ℤ) → (a ≡ new) ⊎ Owner none a → a ≡ new
      only a (inl here) = here
      only a (inr nobody) = absurd nobody

      alone : (o : Option ℤ) → o ≡ none → Awake me (Owner o) tr → Awake me (Owner (some new)) called
      alone o e within = λ a holds other.
          only a (Within-high me sched_fifo (Owner none) tr (rw e at within) new 99 a holds other)

  run_down_keeps :
      (now : ℕ) (ps : List Process) (running : Option ℕ) (tr : Trace)
      → Safe me tr
      → OnlyRunning me sched_fifo stray now ps running tr
      → Keeps
          (Safe me)
          (run_down kernel stray running ps)
          tr
          (λ ps' tr'. OnlyRunning me sched_fifo stray now ps' running tr')
  unfolding run_down
  run_down_keeps now ps none tr s o = pure_keeps (Safe me) ps tr s o
  run_down_keeps now ps (some i) tr s o =
      bind_keeps (Safe me) (decrement (get_or ps i stray).exec)
        (λ left. pure (spent stray ps i left)) tr
        (decrement_keeps (Safe me)
          {Post = λ _ tr'. OnlyRunning me sched_fifo stray now ps (some i) tr'}
          (get_or ps i stray).exec tr s (λ left. o))
        λ left tr' s' o'.
          pure_keeps (Safe me) (spent stray ps i left) tr' s'
            (OnlyRunning-spent me sched_fifo stray now ps (some i) tr' i left o')

  pub pass_keeps :
      (s : State) (tr : Trace)
      → Safe me tr
      → OnlyRunning me sched_fifo stray (s.ntime + 1) s.proc s.running tr
      → Keeps (Safe me) (pass kernel stray s) tr (Again (Safe me) Inv)
  unfolding pass
  pass_keeps s tr safe o =
      bind_keeps (Safe me) unit_t (λ _. down) tr
        (unit_t_keeps kernel stray me (owner stray s.proc s.running) tr safe o.within)
        λ _ tr' safe' within.
          bind_keeps (Safe me) (run_down kernel stray s.running s.proc) counted tr'
            (run_down_keeps (s.ntime + 1) s.proc s.running tr' safe' (
              OnlyRunning-switch me sched_fifo stray (s.ntime + 1) s.proc s.running s.running tr tr'
                o o.started within))
            λ ps tr'' safe'' o''.
              bind_keeps (Safe me) (increment s.ntime) (λ now. pure (went ps now)) tr''
                (increment_keeps (Safe me)
                  {Post = λ now t. OnlyRunning me sched_fifo stray now ps s.running t} s.ntime tr''
                  safe'' o'')
                λ now tr3 safe3 o3. pure_keeps (Safe me) (went ps now) tr3 safe3 o3
    where
      went : List Process → ℕ → Round State
      went ps now = again (record s { proc = ps; ntime = now })

      counted : List Process → M (Round State)
      counted ps = increment s.ntime >>= λ now. pure (went ps now)

      down : M (Round State)
      down = run_down kernel stray s.running s.proc >>= counted

  pub arrivals_keeps :
      (s : State) (tr : Trace)
      → Safe me tr
      → Inv s tr
      → Keeps
          (Safe me)
          (arrivals kernel stray s.ntime s.proc)
          tr
          (λ ps tr'. OnlyRunning me sched_fifo stray (s.ntime + 1) ps s.running tr')
  unfolding arrivals
  arrivals_keeps s tr safe o =
      weaken_keeps (Safe me) (arrivals kernel stray s.ntime s.proc) tr
        (for_each_keeps (Safe me) (Awake me (Owner (owner stray s.proc s.running)))
          (Arrives s.ntime) (arrive kernel stray s.ntime)
          (arrive_keeps kernel stray me (owner stray s.proc s.running) s.ntime) s.proc tr safe
          o.within)
        λ ps tr' (arrived, within).
          OnlyRunning-arrivals me sched_fifo stray s.ntime s.proc ps s.running tr tr' o arrived
            within
