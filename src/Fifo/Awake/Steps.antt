-- ===== src/Fifo/Awake/Steps.antt =====
-- FIFO.c, the steps of the loop: who is awake behind each of them.
use os_project.Prelude.{ℕ, ◌+◌, ◌≡◌, ◌⊎◌, refl, Option, none, some, List, ◌∷◌, ℤ, get_or}
use os_project.Process.{Process, proc_at, same_index}
use os_project.Process.Awake.{
  OnlyRunning, Arrives, IsStarted, owner, only_next, spent, OnlyRunning-arrivals,
  OnlyRunning-switch, OnlyRunning-spent,
}
use os_project.Os.{
  Trace, Kernel, M, ◌>>=◌, ◌>>◌, pure, say, print, sched_other, context_switch, increment,
  decrement,
}
use os_project.Os.Loop.{Round, again}
use os_project.Os.Keeps.{
  Keeps, pure_keeps, step_keeps, if_keeps, bind_keeps, weaken_keeps, increment_keeps,
  decrement_keeps, for_each_keeps, Again,
}
use os_project.Os.Awake.{Owner}
use os_project.Fifo.Control.{time_unit, proc_block, proc_wakeup}
use os_project.Fifo.{State, arrive, arrivals, switch, run_down, pass}
use os_project.Fifo.Awake.Control.{
  proc_wakeup_keeps, proc_block_keeps, time_unit_keeps, arrive_keeps, Safe, Awake,
}

module _ (kernel : Kernel) (stray : Process) (me : ℤ) where
  -- The invariant of the loop.
  abbrev pub Inv : State → Trace → Type 0
  Inv s tr = OnlyRunning me sched_other stray s.time_cnt s.proc s.running tr

  pub switch_keeps :
      (s : State) (next : Option ℕ) (tr : Trace) (now : ℕ)
      → Safe me tr
      → OnlyRunning me sched_other stray now s.proc s.running tr
      → IsStarted stray s.proc next
      → Keeps
          (Safe me)
          (switch kernel stray s next)
          tr
          (λ running tr'. OnlyRunning me sched_other stray now s.proc running tr')
  unfolding switch
  switch_keeps s none tr now safe o started = pure_keeps (Safe me) s.running tr safe o
  switch_keeps s (some k) tr now safe o started =
      if_keeps (Safe me) (same_index s.running (some k)) (pure s.running)
        (say context_switch >> (wakeup >>= blocked)) tr
        (λ _. pure_keeps (Safe me) s.running tr safe o)
        λ _.
          step_keeps (Safe me) (say context_switch) (λ _. wakeup >>= blocked) refl
            (bind_keeps (Safe me) wakeup blocked said
              (proc_wakeup_keeps kernel stray me (Owner (owner stray s.proc s.running)) new said
                safe o.within)
              λ _ tr' safe' within'.
                bind_keeps (Safe me) (proc_block kernel old) (λ _. pure (some k)) tr'
                  (proc_block_keeps kernel stray me
                    (λ a. (a ≡ new) ⊎ Owner (owner stray s.proc s.running) a) old tr' safe' within')
                  λ _ tr'' safe'' within''. pure_keeps (Safe me) (some k) tr'' safe'' (
                    OnlyRunning-switch me sched_other stray now s.proc s.running (some k) tr tr'' o
                      started
                      λ a holds other.
                        only_next stray s.proc s.running new a (within'' a holds other)))
    where
      new : ℤ
      new = (proc_at stray s.proc (some k)).pid

      old : ℤ
      old = (proc_at stray s.proc s.running).pid

      said : Trace
      said = print context_switch ∷ tr

      wakeup : M ℤ
      wakeup = proc_wakeup kernel new

      blocked : ℤ → M (Option ℕ)
      blocked ret = proc_block kernel old >>= λ _. pure (some k)

  run_down_keeps :
      (now : ℕ) (ps : List Process) (running : Option ℕ) (tr : Trace)
      → Safe me tr
      → OnlyRunning me sched_other stray now ps running tr
      → Keeps
          (Safe me)
          (run_down kernel stray running ps)
          tr
          (λ ps' tr'. OnlyRunning me sched_other stray now ps' running tr')
  unfolding run_down
  run_down_keeps now ps none tr s o = pure_keeps (Safe me) ps tr s o
  run_down_keeps now ps (some i) tr s o =
      bind_keeps (Safe me) (decrement (get_or ps i stray).exec)
        (λ left. pure (spent stray ps i left)) tr
        (decrement_keeps (Safe me)
          {Post = λ _ tr'. OnlyRunning me sched_other stray now ps (some i) tr'}
          (get_or ps i stray).exec tr s (λ left. o))
        λ left tr' s' o'.
          pure_keeps (Safe me) (spent stray ps i left) tr' s'
            (OnlyRunning-spent me sched_other stray now ps (some i) tr' i left o')

  pub pass_keeps :
      (s : State) (running : Option ℕ) (tr : Trace)
      → Safe me tr
      → OnlyRunning me sched_other stray (s.time_cnt + 1) s.proc running tr
      → Keeps (Safe me) (pass kernel stray s running) tr (Again (Safe me) Inv)
  unfolding pass
  pass_keeps s running tr safe o =
      bind_keeps (Safe me) time_unit (λ _. counted) tr
        (time_unit_keeps kernel stray me (owner stray s.proc running) tr safe o.within)
        λ _ tr' safe' within.
          bind_keeps (Safe me) (increment s.time_cnt) down tr'
            (increment_keeps (Safe me)
              {Post = λ now t. OnlyRunning me sched_other stray now s.proc running t} s.time_cnt tr'
              safe'
              (OnlyRunning-switch me sched_other stray (s.time_cnt + 1) s.proc running running tr
                tr' o o.started within))
            λ now tr'' safe'' o''.
              bind_keeps (Safe me) (run_down kernel stray running s.proc) (λ ps. pure (went now ps))
                tr'' (run_down_keeps now s.proc running tr'' safe'' o'')
                λ ps tr3 safe3 o3. pure_keeps (Safe me) (went now ps) tr3 safe3 o3
    where
      went : ℕ → List Process → Round State
      went now ps = again (record s { proc = ps; running = running; time_cnt = now })

      down : ℕ → M (Round State)
      down now = run_down kernel stray running s.proc >>= λ ps. pure (went now ps)

      counted : M (Round State)
      counted = increment s.time_cnt >>= down

  pub arrivals_keeps :
      (s : State) (tr : Trace)
      → Safe me tr
      → Inv s tr
      → Keeps
          (Safe me)
          (arrivals kernel stray s.time_cnt s.proc)
          tr
          (λ ps tr'. OnlyRunning me sched_other stray (s.time_cnt + 1) ps s.running tr')
  unfolding arrivals
  arrivals_keeps s tr safe o =
      weaken_keeps (Safe me) (arrivals kernel stray s.time_cnt s.proc) tr
        (for_each_keeps (Safe me) (Awake me (Owner (owner stray s.proc s.running)))
          (Arrives s.time_cnt) (arrive kernel stray s.time_cnt)
          (arrive_keeps kernel stray me (owner stray s.proc s.running) s.time_cnt) s.proc tr safe
          o.within)
        λ ps tr' (arrived, within).
          OnlyRunning-arrivals me sched_other stray s.time_cnt s.proc ps s.running tr tr' o arrived
            within
