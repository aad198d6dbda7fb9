-- ===== src/Os/Forks.antt =====
-- Kernels that refuse a processor or a child, and traces in which no process is made.
use os_project.Prelude.{ℕ, suc, ◌≡◌, ◌≢◌, [], ◌∷◌, true, false, ltb_ℤ, pos, All}
use os_project.Os.{Trace, Kernel, fork_call, spin, sched_other}

-- No process has been made.
abbrev pub NoFork : Trace → Type 0
NoFork = All (λ c. c ≢ fork_call)

-- The kernel does not let a process bind itself to the first processor.
abbrev pub Refuses : Kernel → Type 0
Refuses kernel =
    (tr : Trace) → ltb_ℤ (kernel.affinity_answer (kernel.own_pid tr) 0 tr) (pos 0) ≡ true

-- The kernel lets a process bind itself to the first processor.
abbrev pub Accepts : Kernel → Type 0
Accepts kernel =
    (tr : Trace) → ltb_ℤ (kernel.affinity_answer (kernel.own_pid tr) 0 tr) (pos 0) ≡ false

-- The kernel lets a process give itself the policy SCHED_OTHER.
abbrev pub LetsOther : Kernel → Type 0
LetsOther kernel =
    (tr tr' : Trace)
    → ltb_ℤ (kernel.scheduler_answer (kernel.own_pid tr) sched_other 0 tr') (pos 0) ≡ false

-- No process can be made.
abbrev pub ForkFails : Kernel → Type 0
ForkFails kernel = (tr : Trace) → ltb_ℤ (kernel.fork_answer tr) (pos 0) ≡ true

-- The processes that were asked for.
abbrev pub forks : Trace → ℕ
forks [] = 0
forks (fork_call ∷ tr) = suc (forks tr)
forks (_ ∷ tr) = forks tr

-- The units of time that were spent.
abbrev pub units : Trace → ℕ
units [] = 0
units (spin n ∷ tr) = suc (units tr)
units (_ ∷ tr) = units tr
