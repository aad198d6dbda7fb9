-- ===== src/Samples.antt =====
-- A kernel whose calls succeed, and small tables, for the tests of the schedulers.
use mathlib.Core.List.{Mem, mem-cons_self, mem-cons_of_mem}
use os_project.Prelude.{
  ℕ, ◌+◌, refl, List, [], ◌∷◌, pos, minus_one, eq_ℤ, if◌then◌else◌, length, arith,
}
use os_project.Process.{Process}
use os_project.Process.First.{NoneBefore, All-NoneBefore}
use os_project.Process.Workload.{IsWorkload, All-IsWorkload}
use os_project.Os.{Kernel, IsReliable, AllowsPolicies}

-- The pids are 100 and above.
abbrev pub obliging : Kernel
obliging = record {
  fork_answer = λ tr. pos (100 + length tr);
  affinity_answer = λ pid core tr. pos 0;
  scheduler_answer = λ pid policy priority tr. pos 0;
  own_pid = λ tr. pos 99;
}

-- The kernel as the child of a `fork` sees it.
abbrev pub in_child : Kernel
in_child = record obliging { fork_answer = λ tr. pos 0 }

-- No process can be made, and there is no process -1.
abbrev pub refusing : Kernel
refusing = record obliging {
  fork_answer = λ tr. minus_one;
  affinity_answer = λ pid core tr. minus_one;
}

-- No process can be made, and there is no process -1; the other calls succeed.
abbrev pub forkless : Kernel
forkless = record obliging {
  fork_answer = λ tr. minus_one;
  affinity_answer = λ pid core tr. if eq_ℤ pid minus_one then minus_one else pos 0;
  scheduler_answer = λ pid policy priority tr. if eq_ℤ pid minus_one then minus_one else pos 0;
}

-- Another one, whose pids are below 100.
abbrev pub sparing : Kernel
sparing = record obliging { fork_answer = λ tr. pos (1 + length tr) }

pub sparing-IsReliable : IsReliable sparing
sparing-IsReliable = record { fork_ok = λ tr. ground arith; affinity_ok = λ pid core tr. refl }

pub obliging-IsReliable : IsReliable obliging
obliging-IsReliable = record { fork_ok = λ tr. ground arith; affinity_ok = λ pid core tr. refl }

pub obliging-AllowsPolicies : AllowsPolicies obliging
obliging-AllowsPolicies = record { scheduler_ok = λ pid policy priority tr. refl }

pub sparing-AllowsPolicies : AllowsPolicies sparing
sparing-AllowsPolicies = record { scheduler_ok = λ pid policy priority tr. refl }

abbrev pub job : ℕ → ℕ → ℕ → Process
job name ready exec = record {
  name = name ∷ [];
  ready = pos ready;
  exec = pos exec;
  waiting = pos 0;
  pid = pos 0;
}

-- What the memory in front of the table holds.
abbrev pub stray : Process
stray = job 0 0 0

abbrev pub two_jobs : List Process
two_jobs = job 2 1 2 ∷ job 1 0 3 ∷ []

pub two_jobs-IsWorkload : IsWorkload two_jobs
two_jobs-IsWorkload = All-IsWorkload two_jobs (refl, (refl, tt))

-- The first of these arrives at 2.
abbrev pub late_jobs : List Process
late_jobs = job 2 4 1 ∷ job 1 2 3 ∷ []

pub late_jobs-NoneBefore : NoneBefore 2 late_jobs
late_jobs-NoneBefore = All-NoneBefore 2 late_jobs (refl, (refl, tt))

pub late_jobs_mem : Mem (job 1 2 3) late_jobs
late_jobs_mem = mem-cons_of_mem (job 2 4 1) mem-cons_self
