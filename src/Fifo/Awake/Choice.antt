-- ===== src/Fifo/Awake/Choice.antt =====
-- FIFO.c, `next_proc`: the pid of the process that it chooses.
use os_project.Prelude.{ℕ, ◌≡◌, Option, none, some}
use os_project.Process.{Process, least_by}
use os_project.Process.Select.{least_by-FirstLeast}
use os_project.Process.Awake.{IsStarted, FirstLeast-IsStarted}
use os_project.Os.{Kernel}
use os_project.Fifo.{State, next_proc}

module _ (kernel : Kernel) (stray : Process) where
  pub next_proc-IsStarted :
      (s : State) (running : Option ℕ)
      → s.running ≡ running
      → IsStarted stray s.proc running
      → IsStarted stray s.proc (next_proc kernel stray s)
  unfolding next_proc
  next_proc-IsStarted s none e started = rw e (
      FirstLeast-IsStarted (λ p. p.ready) stray s.proc (least_by (λ p. p.ready) stray s.proc)
        (least_by-FirstLeast (λ p. p.ready) stray s.proc))
  next_proc-IsStarted s (some i) e started = rw e started
