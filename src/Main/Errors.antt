-- ===== src/Main/Errors.antt =====
-- The errors that end the program before a process is made.
use os_project.Prelude.{
  ℕ, ◌≡◌, refl, Option, some, List, [], ◌∷◌, true, false, Bool-cases, inl, inr, ◌==◌, ==_iff, All,
  length,
}
use os_project.Process.{Process, Name}
use os_project.Process.Sorting.{Qsort}
use os_project.Os.{Trace, Kernel, M, returned, print, not_supported}
use os_project.Os.Triple.{Exits}
use os_project.Psjf.{psjf}
use os_project.Fifo.{fifo}
use os_project.Sjf.{sjf}
use os_project.Rr.{rr_main}
use os_project.Main.{main, run_policy, same_name, psjf_name, rr_name, sjf_name, fifo_name}
use os_project.Main.Input.{Text}
use os_project.Main.Input.Layout.{
  Line, file_text, digits_value, IsWord, IsNumeral, IsLine, scan_input-file_text,
}
use os_project.Os.Forks.{NoFork, Refuses}
use os_project.Psjf.Refused.{psjf-Exits}
use os_project.Sjf.Refused.{sjf-Exits}
use os_project.Rr.Refused.{rr_main-Exits}
use os_project.Fifo.Refused.{fifo-Exits}

module _ (kernel : Kernel) (stray : Process) (refused : Refuses kernel) where
  -- Where the kernel does not let the scheduler bind itself to the first processor, each of the
  -- four schedulers exits with 1 on every table, and has made no process.
  pub schedulers-Exits :
      (qsort : Qsort) (fuel : ℕ) (proc : List Process)
      → Exits (psjf kernel stray fuel proc) [] 1 NoFork
        × Exits (sjf kernel stray qsort fuel proc) [] 1 NoFork
        × Exits (rr_main kernel stray qsort fuel proc) [] 1 NoFork
        × Exits (fifo kernel stray qsort fuel proc) [] 1 NoFork
  schedulers-Exits qsort fuel proc = (
    psjf-Exits kernel stray refused fuel proc,
    sjf-Exits kernel stray refused qsort fuel proc,
    rr_main-Exits kernel stray refused qsort fuel proc,
    fifo-Exits kernel stray refused qsort fuel proc,
  )

-- `strcmp` finds no difference where there is none.
same_name-path : (a b : Name) → same_name a b ≡ true → a ≡ b
same_name-path [] [] e = refl
same_name-path [] (d ∷ b) e = cc
same_name-path (c ∷ a) [] e = cc
same_name-path (c ∷ a) (d ∷ b) e = elim (Bool-cases (c == d)) [
  | inl same ↦
      let first : c ≡ d = (==_iff c d).0 same in rw (first, same_name-path a b (rw same at e)) refl
  | inr differs ↦ let wrong = rw differs at e in absurd cc
]

same_name-differs : (a b : Name) → ¬ (a ≡ b) → same_name a b ≡ false
same_name-differs a b differs = elim (Bool-cases (same_name a b)) [
  | inl same ↦ absurd (differs (same_name-path a b same))
  | inr other ↦ other
]

module _ (kernel : Kernel) (stray : Process) (memory : ℕ → Process) (qsort : Qsort)
    (undefined_run : Text → M (Option ℕ)) (fuel : ℕ) (count : Text) (ls : List Line) where
  -- On a file of the right layout that asks for another policy than the four, main prints that it
  -- is not supported and returns 0, without a system call.
  pub main-unsupported :
      (policy : Name) (tr : Trace)
      → IsNumeral count
      → digits_value count ≡ length ls
      → All IsLine ls
      → IsWord 16 policy
      → ¬ (policy ≡ psjf_name)
      → ¬ (policy ≡ rr_name)
      → ¬ (policy ≡ sjf_name)
      → ¬ (policy ≡ fifo_name)
      → main kernel stray memory qsort undefined_run fuel (some (file_text policy count ls)) tr
        ≡ (returned (some 0), print not_supported ∷ tr)
  unfolding main run_policy
  main-unsupported policy tr numeral counted lines word psjf_not rr_not sjf_not fifo_not =
      rw
        (
          scan_input-file_text memory policy count ls word numeral counted lines,
          same_name-differs policy psjf_name psjf_not,
          same_name-differs policy rr_name rr_not,
          same_name-differs policy sjf_name sjf_not,
          same_name-differs policy fifo_name fifo_not,
        )
        refl
