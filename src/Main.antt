-- ===== src/Main.antt =====
-- main.c: `main`, which reads the table from a file and runs it under the policy that the file names.
pub mod Input
pub mod Policies
pub mod Agree
pub mod Errors
pub mod Comparators
mod Tests
use os_project.Prelude.{
  ℕ, Option, none, some, List, [], ◌∷◌, Bool, true, false, ◌==◌, ◌&&◌, if◌then◌else◌,
}
use os_project.Process.{Process, Name}
use os_project.Process.Sorting.{Qsort}
use os_project.Os.{Kernel, M, pure, exit, ◌>>=◌, ◌>>◌, say, open_failure, not_supported}
use os_project.Fifo.{fifo}
use os_project.Sjf.{sjf}
use os_project.Rr.{rr_main}
use os_project.Psjf.{psjf}
use os_project.Main.Input.{Text, Request, scan_input}

-- The names of the policies.
abbrev pub psjf_name : Name
psjf_name = 80 ∷ 83 ∷ 74 ∷ 70 ∷ []

abbrev pub rr_name : Name
rr_name = 82 ∷ 82 ∷ []

abbrev pub sjf_name : Name
sjf_name = 83 ∷ 74 ∷ 70 ∷ []

abbrev pub fifo_name : Name
fifo_name = 70 ∷ 73 ∷ 70 ∷ 79 ∷ []

-- `strcmp(a, b) == 0`
abbrev pub same_name : Name → Name → Bool
same_name [] [] = true
same_name (c ∷ a) (d ∷ b) = (c == d) && same_name a b
same_name _ _ = false

-- `return 0;` behind a scheduler; `none` means that its fuel ran out.
abbrev pub done : {S : Type 0} → Option S → M (Option ℕ)
done none = pure none
done (some s) = pure (some 0)

-- `memory` is what `malloc` hands out, and `undefined_run` what the program does with a text that
-- its calls of `fscanf` do not read.
module _ (kernel : Kernel) (stray : Process) (memory : ℕ → Process) (qsort : Qsort)
    (undefined_run : Text → M (Option ℕ)) (fuel : ℕ) where
  -- The choice of the scheduler.
  pub run_policy : Name → List Process → M (Option ℕ)
  run_policy policy proc =
      if same_name policy psjf_name
      then (psjf kernel stray fuel proc >>= done)
      else if same_name policy rr_name
      then (rr_main kernel stray qsort fuel proc >>= done)
      else if same_name policy sjf_name
      then (sjf kernel stray qsort fuel proc >>= done)
      else if same_name policy fifo_name
      then (fifo kernel stray qsort fuel proc >>= done)
      else (say not_supported >> pure (some 0))

  abbrev run_input : Text → Option Request → M (Option ℕ)
  run_input text none = undefined_run text
  run_input text (some input) = run_policy input.policy input.proc

  -- The argument is what `fopen` finds, `none` where it finds no file.
  pub main : Option Text → M (Option ℕ)
  main none = say open_failure >> exit 1
  main (some text) = run_input text (scan_input memory text)
