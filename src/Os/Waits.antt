-- ===== src/Os/Waits.antt =====
-- Loops that wait for a time, and then exit.
use os_project.Prelude.{ℕ, zero, suc, ◌+◌, ◌<◌, ◌≡◌, refl, ◌∙◌, Option, ◌∷◌, arith}
use os_project.Os.{M, Trace, spin}
use os_project.Os.Triple.{Returns, Exits, exit_rule, Exits-before}
use os_project.Os.Loop.{Round, again, break, resume, forever}
use os_project.Os.Forks.{forks, units}

-- `n` units of time, of `k` rounds of an empty loop each.
abbrev pub spend : ℕ → ℕ → Trace → Trace
spend k zero tr = tr
spend k (suc n) tr = spend k n (spin k ∷ tr)

pub forks-spend : (k n : ℕ) (tr : Trace) → forks (spend k n tr) ≡ forks tr
forks-spend k zero tr = refl
forks-spend k (suc n) tr = forks-spend k n (spin k ∷ tr)

pub units-spend : (k n : ℕ) (tr : Trace) → units (spend k n tr) ≡ n + units tr
units-spend k zero tr = omega arith
units-spend k (suc n) tr =
    let one_more : n + suc (units tr) ≡ suc n + units tr = omega arith in
    units-spend k n (spin k ∷ tr) ∙ one_more

-- The loop goes round again, one unit of time later.
abbrev pub Waits : {S : Type 0} → (ℕ → S → Type 0) → ℕ → Round S → Type 0
Waits Waiting t (again s) = Waiting (suc t) s
Waits Waiting t (break s) = ⊥

module _ {S : Type 0} (Waiting : ℕ → S → Type 0) (k last code : ℕ) (Post : Trace → Trace → Type 0)
    (body : S → M (Round S))
    (waits : (t : ℕ) (s : S) (tr : Trace)
      → t < last
      → Waiting t s
      → Returns (body s) tr (λ r tr'. Waits Waiting t r × (tr' ≡ spin k ∷ tr)))
    (ends : (s : S) (tr : Trace) → Waiting last s → Exits (body s) tr code (Post tr)) where
  resume_exits :
      (go : S → M (Option S)) (t n : ℕ) (tr : Trace)
      → ((s : S)
          → Waiting (suc t) s
          → Exits (go s) (spin k ∷ tr) code (Post (spend k n (spin k ∷ tr))))
      → (r : Round S) (tr' : Trace) → Waits Waiting t r × (tr' ≡ spin k ∷ tr)
      → Exits (resume go r) tr' code (Post (spend k (suc n) tr))
  resume_exits go t n tr rest (again s) tr' (w, e) = rw e (rest s w)
  resume_exits go t n tr rest (break s) tr' (w, e) = absurd w

  -- The loop waits for the time `last`, at which it exits.
  pub forever_exits :
      (n fuel t : ℕ) (s : S) (tr : Trace)
      → n < fuel
      → t + n ≡ last
      → Waiting t s
      → Exits (forever fuel body s) tr code (Post (spend k n tr))
  unfolding forever
  forever_exits n zero t s tr lt e w = absurd (omega arith)
  forever_exits zero (suc fuel) t s tr lt e w =
      let now : t ≡ last = omega arith in
      Exits-before (body s) (resume (forever fuel body)) (ends s tr (rw⁻¹ now w))
  forever_exits (suc n) (suc fuel) t s tr lt e w =
      exit_rule (body s) (resume (forever fuel body)) (waits t s tr (omega arith) w) (
        resume_exits (forever fuel body) t n tr
          λ s' w'. forever_exits n fuel (suc t) s' (spin k ∷ tr) (omega arith) (omega arith) w')
