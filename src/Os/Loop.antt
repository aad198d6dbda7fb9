-- ===== src/Os/Loop.antt =====
-- `while (1)` loops that end by `break`, on fuel, and their rule of total correctness.
use os_project.Prelude.{
  ℕ, zero, suc, ◌+◌, ◌<◌, ◌≤◌, ◌≡◌, refl, ap, ◌∙◌, Option, none, some, true, false, ltb,
  if◌then◌else◌, Bool-cases, inl, inr, arith,
}
use os_project.Os.{
  M, Trace, pure, ◌>>=◌, and_then, Outcome, returned, exited_with, overflowed, hung, int_max,
}
use os_project.Os.Triple.{Returns, bind_rule, pure_rule}

-- One round of a loop: it goes round again, or breaks.
pub data Round (S : Type 0) : Type 0 where
  again : S → Round S
  break : S → Round S

abbrev pub resume : {S : Type 0} → (S → M (Option S)) → Round S → M (Option S)
resume go (again t) = go t
resume go (break t) = pure (some t)

-- `none` means that the fuel ran out.
unfoldable pub forever : {S : Type 0} → ℕ → (S → M (Round S)) → S → M (Option S)
forever zero body s = pure none
forever (suc fuel) body s = body s >>= resume (forever fuel body)

module _ {S : Type 0} (Inv Done : S → Trace → Type 0) (measure : S → ℕ) where
  -- What a round has to establish.
  abbrev pub Progress : ℕ → Round S → Trace → Type 0
  Progress bound (again t) tr = Inv t tr × (measure t < bound)
  Progress bound (break t) tr = Done t tr

  abbrev pub Ended : Option S → Trace → Type 0
  Ended none tr = ⊥
  Ended (some t) tr = Done t tr

  resume_rule :
      (go : S → M (Option S)) (bound : ℕ)
      → ((t : S) (tr : Trace) → Inv t tr → measure t < bound → Returns (go t) tr Ended)
      → (r : Round S) (tr : Trace) → Progress bound r tr
      → Returns (resume go r) tr Ended
  resume_rule go bound rest (again t) tr (i, m) = rest t tr i m
  resume_rule go bound rest (break t) tr d = pure_rule (some t) tr d

  -- With more fuel than the measure, the loop ends by `break`.
  pub forever_rule :
      (body : S → M (Round S))
      → ((s : S) (tr : Trace) → Inv s tr → Returns (body s) tr (Progress (measure s)))
      → (fuel : ℕ) (s : S) (tr : Trace) → measure s < fuel
      → Inv s tr
      → Returns (forever fuel body s) tr Ended
  unfolding forever
  forever_rule body step zero s tr m i = absurd (omega arith)
  forever_rule body step (suc fuel) s tr m i =
      bind_rule (body s) (resume (forever fuel body)) (step s tr i) (
        resume_rule (forever fuel body) (measure s)
          (λ t tr' i' m'. forever_rule body step fuel t tr' (omega arith) i'))

-- What comes of `n` idle units of time, counted from 0 on an `int`.
abbrev pub idle_outcome : {S : Type 0} → ℕ → Outcome (Option S)
idle_outcome n = if ltb int_max n then overflowed else returned none

-- What comes of an idle round that starts at the time `t`.
abbrev pub Idles : {S : Type 0} → (ℕ → S → Type 0) → ℕ → Outcome (Round S) → Type 0
Idles Stuck t (returned (again s)) = (ltb t int_max ≡ true) × Stuck (suc t) s
Idles Stuck t (returned (break s)) = ⊥
Idles Stuck t (exited_with code) = ⊥
Idles Stuck t overflowed = ltb t int_max ≡ false
Idles Stuck t hung = ⊥

module _ {S : Type 0} (Stuck : ℕ → S → Type 0) (body : S → M (Round S))
    (idles : (t : ℕ) (s : S) (tr : Trace) → Stuck t s → Idles Stuck t (body s tr).0) where
  resume-idle_outcome :
      (fuel t : ℕ)
      → ((s : S) (tr : Trace)
          → t < int_max
          → Stuck (suc t) s
          → (forever fuel body s tr).0 ≡ idle_outcome (suc t + fuel))
      → (o : Outcome (Round S)) (tr : Trace) → Idles Stuck t o
      → (and_then o (resume (forever fuel body)) tr).0 ≡ idle_outcome (t + suc fuel)
  resume-idle_outcome fuel t rest (returned (again s)) tr h =
      let before : t < int_max = ground (arith, h.0) in
      let same : suc t + fuel ≡ t + suc fuel = omega arith in
      rest s tr before h.1 ∙ ap idle_outcome same
  resume-idle_outcome fuel t rest (returned (break s)) tr h = absurd h
  resume-idle_outcome fuel t rest (exited_with code) tr h = absurd h
  resume-idle_outcome fuel t rest overflowed tr h = ground (arith, h)
  resume-idle_outcome fuel t rest hung tr h = absurd h

  -- The loop makes one idle round for each unit of fuel, until its clock overflows.
  forever-idle_outcome :
      (fuel t : ℕ) (s : S) (tr : Trace)
      → t ≤ int_max
      → Stuck t s
      → (forever fuel body s tr).0 ≡ idle_outcome (t + fuel)
  unfolding forever
  forever-idle_outcome zero t s tr bound h = ground arith
  forever-idle_outcome (suc fuel) t s tr bound h =
      resume-idle_outcome fuel t
        (λ s' tr' lt h'. forever-idle_outcome fuel (suc t) s' tr' (omega arith) h') (body s tr).0
        (body s tr).1 (idles t s tr h)

  pub forever_idles :
      (fuel : ℕ) (s : S) (tr : Trace) → Stuck 0 s → (forever fuel body s tr).0 ≡ idle_outcome fuel
  forever_idles fuel s tr h =
      let same : 0 + fuel ≡ fuel = omega arith in
      forever-idle_outcome fuel 0 s tr (omega arith) h ∙ ap idle_outcome same

-- What follows an idle loop does not change its outcome, where it passes `none` on.
pub and_then-idle_outcome :
    {S : Type 0} (n : ℕ) (o : Outcome (Option S)) (f : Option S → M (Option S)) (tr : Trace)
    → (f none tr).0 ≡ returned none
    → o ≡ idle_outcome n
    → (and_then o f tr).0 ≡ idle_outcome n
and_then-idle_outcome n o f tr passes e = elim (Bool-cases (ltb int_max n)) [
  | inl late ↦ rw (e, late) refl
  | inr before ↦ rw (e, before) passes
]
