-- ===== src/Process/Lost.antt =====
-- Tables of which no process has been made.
use os_project.Prelude.{ℕ, suc, ◌≡◌, refl, none, List, [], ◌∷◌, All, map, ℤ, minus_one}
use os_project.Process.{Process, unstarted, least_from, least_by}
use os_project.Os.{Trace, M, pure, for_each, ◌>>=◌}
use os_project.Os.Triple.{Returns, bind_rule, pure_rule}

abbrev pub IsLost : Process → Type 0
IsLost p = p.pid ≡ minus_one

abbrev pub AllLost : List Process → Type 0
AllLost = All IsLost

pub unstarted-AllLost : (ps : List Process) → AllLost (map unstarted ps)
unstarted-AllLost [] = tt
unstarted-AllLost (p ∷ ps) = (refl, unstarted-AllLost ps)

abbrev pub StaysLost : Process → Process → Type 0
StaysLost p p' = IsLost p → IsLost p'

least_from_lost :
    (key : Process → ℤ) (stray : Process) (proc : List Process) (i : ℕ) (ps : List Process)
    → AllLost ps
    → least_from key stray proc i none ps ≡ none
unfolding least_from
least_from_lost key stray proc i [] lost = refl
least_from_lost key stray proc i (p ∷ ps) lost =
    rw (lost.0) (least_from_lost key stray proc (suc i) ps lost.1)

pub least_by-AllLost :
    (key : Process → ℤ) (stray : Process) (ps : List Process)
    → AllLost ps
    → least_by key stray ps ≡ none
unfolding least_by
least_by-AllLost key stray ps lost = least_from_lost key stray ps 0 ps lost

module _ (arrive : Process → M Process)
    (visit : (p : Process) (tr : Trace) → Returns (arrive p) tr (λ p' _. StaysLost p p')) where
  -- A loop over a table whose body makes no process.
  pub for_each-AllLost :
      (ps : List Process) (tr : Trace)
      → AllLost ps
      → Returns (for_each arrive ps) tr (λ ps' _. AllLost ps')
  for_each-AllLost [] tr lost = pure_rule [] tr tt
  for_each-AllLost (p ∷ ps) tr lost =
      bind_rule (arrive p) (λ p'. for_each arrive ps >>= λ ps'. pure (p' ∷ ps')) (visit p tr)
        λ p' tr' stays.
          bind_rule (for_each arrive ps) (λ ps'. pure (p' ∷ ps')) (for_each-AllLost ps tr' lost.1)
            λ ps' tr'' lost'. pure_rule (p' ∷ ps') tr'' (stays lost.0, lost')
