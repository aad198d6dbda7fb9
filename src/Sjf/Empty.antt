-- ===== src/Sjf/Empty.antt =====
-- SJF on an empty table.
use os_project.Prelude.{ℕ, ◌≡◌, refl, Option, none, [], ◌∷◌, Bool-cases, ltb, inl, inr, arith}
use os_project.Process.{Process, least_by}
use os_project.Process.Sorting.{Qsort, IsQsort, qsort-nil}
use os_project.Os.{Trace, Kernel, M, ◌>>=◌, print, called, int_max}
use os_project.Os.Forks.{Accepts}
use os_project.Os.Triple.{outcome-after}
use os_project.Os.Loop.{Idles, idle_outcome, forever_idles, and_then-idle_outcome}
use os_project.Sjf.{
  State, unit_t, cmp, arrivals, choose, switch, run_down, pass, advance, is_over, round, prepare,
  loop, leave, sjf,
}
use os_project.Sjf.First.Wait.{prepare-Same}

module _ (kernel : Kernel) (stray : Process) where
  -- No entry and no process, at the time `t`.
  abbrev Vacant : ℕ → State → Type 0
  Vacant t s = (s.proc ≡ []) × (s.running ≡ none) × (s.ntime ≡ t)

  round-Idles :
      (t : ℕ) (s : State) (tr : Trace) → Vacant t s → Idles Vacant t (round kernel stray s tr).0
  unfolding round is_over advance arrivals choose least_by switch pass run_down unit_t
  round-Idles t s tr (empty, vacant, clock) = elim (Bool-cases (ltb t int_max)) [
    | inl before ↦ rw (vacant, empty, clock, before) (before, (refl, refl, omega arith))
    | inr late ↦ rw (vacant, empty, clock, late) late
  ]

  loop_idles : (fuel : ℕ) (tr : Trace) → (loop kernel stray fuel [] tr).0 ≡ idle_outcome fuel
  unfolding loop
  loop_idles fuel tr =
      forever_idles Vacant (round kernel stray) round-Idles fuel
        (record { proc = []; running = none; finish_cnt = 0; ntime = 0; t_last = 0 }) tr
        (refl, refl, refl)

  -- On an empty table, where the kernel lets the scheduler bind itself to the first processor and
  -- qsort permutes and sorts, SJF is still in its loop after as many rounds as it has fuel, up to
  -- the largest int, and overflows its clock with more: it neither breaks out of the loop nor
  -- exits.
  pub sjf_nil :
      (qsort : Qsort) (fuel : ℕ) (tr : Trace)
      → IsQsort qsort
      → Accepts kernel
      → (sjf kernel stray qsort fuel [] tr).0 ≡ idle_outcome fuel
  unfolding sjf leave
  sjf_nil qsort fuel tr sorting accepts = rw (qsort-nil sorting cmp) (
      outcome-after (λ o. o ≡ idle_outcome fuel) (prepare kernel stray)
        (λ _. run >>= leave kernel stray) (prepare-Same kernel stray accepts (print called ∷ tr))
        λ _ tr' _.
          and_then-idle_outcome fuel (run tr').0 (leave kernel stray) (run tr').1 refl
            (loop_idles fuel tr'))
    where
      run : M (Option State)
      run = loop kernel stray fuel []
