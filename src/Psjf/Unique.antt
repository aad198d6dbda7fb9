-- ===== src/Psjf/Unique.antt =====
-- PSJF.c: which parts of a run of `PSJF` the kernel decides.
use os_project.Prelude.{ℕ, ◌≡◌, Option, some, List, [], set, get_or}
use os_project.Process.{Process}
use os_project.Process.Jobs.{Job, no_job, Pointwise}
use os_project.Process.Work.{spend}
use os_project.Os.{Kernel}
use os_project.Os.Triple.{Returns}
use os_project.Psjf.{State, psjf}
use os_project.Psjf.Timeline.{Timeline, HasPid}
use os_project.Psjf.Steps.{seen}

abbrev next : List Job → ℕ → List Job
next js i = set js i (spend (get_or js i no_job))

module _ (stray : Process) (fuel : ℕ) (proc : List Process) where
  -- PSJF returns when it has given the units of time to the entries that `ran` names.
  abbrev pub GivesUnits : Kernel → List (Option ℕ) → Type 0
  GivesUnits kernel ran =
      Returns (psjf kernel stray fuel proc) []
        (λ r tr'. (s : State) × (r ≡ some s) × Pointwise (HasPid stray s.proc) ran (seen tr').1)
