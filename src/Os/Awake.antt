-- ===== src/Os/Awake.antt =====
-- Which processes hold a policy of `sched_setscheduler`, as the calls of a scheduler have it.
pub mod Calls
use os_project.Prelude.{
  ℕ, ◌≡◌, ◌⊎◌, inl, inr, sym, ap, ◌∙◌, Option, none, some, [], ◌∷◌, Bool-cases, true, false, ℤ, pos,
  negsuc, eq_ℤ, if◌then◌else◌, ==_iff, ==-self,
}
use os_project.Os.{Trace, Policy, scheduler_call, wait_call, spin}

-- The policy last asked for, for a process that has not been waited for since.
abbrev pub policy_of : ℤ → Trace → Option Policy
policy_of pid [] = none
policy_of pid (scheduler_call who policy priority ∷ tr) =
    if eq_ℤ who pid then some policy else policy_of pid tr
policy_of pid (wait_call who ∷ tr) = if eq_ℤ who pid then none else policy_of pid tr
policy_of pid (_ ∷ tr) = policy_of pid tr

-- A condition on the calls made before each of the units of time.
abbrev pub AtUnits : (Trace → Type 0) → Trace → Type 0
AtUnits P [] = Unit
AtUnits P (spin n ∷ tr) = P tr × AtUnits P tr
AtUnits P (_ ∷ tr) = AtUnits P tr

pub eq_ℤ-path : (a b : ℤ) → eq_ℤ a b ≡ true → a ≡ b
eq_ℤ-path (pos a) (pos b) e = ap pos ((==_iff a b).0 e)
eq_ℤ-path (pos a) (negsuc b) e = cc
eq_ℤ-path (negsuc a) (pos b) e = cc
eq_ℤ-path (negsuc a) (negsuc b) e = ap negsuc ((==_iff a b).0 e)

eq_ℤ-self : (a : ℤ) → eq_ℤ a a ≡ true
eq_ℤ-self (pos a) = ==-self a
eq_ℤ-self (negsuc a) = ==-self a

-- Nobody, or who runs.
abbrev pub Owner : Option ℤ → ℤ → Type 0
Owner none a = ⊥
Owner (some who) a = a ≡ who

-- `me` is the scheduler itself.
module _ (me : ℤ) (high : Policy) where
  -- No two processes hold the policy, the scheduler apart.
  abbrev pub AtMostOne : Trace → Type 0
  AtMostOne tr =
      (a b : ℤ)
      → policy_of a tr ≡ some high
      → policy_of b tr ≡ some high
      → ¬ (a ≡ me)
      → ¬ (b ≡ me)
      → a ≡ b

  -- Those that hold it are as `Q` says.
  abbrev pub Within : (ℤ → Type 0) → Trace → Type 0
  Within Q tr = (a : ℤ) → policy_of a tr ≡ some high → ¬ (a ≡ me) → Q a

  module _ (Q : ℤ → Type 0) (tr : Trace) (within : Within Q tr) where
    pub Within-high :
        (who : ℤ) (priority : ℕ)
        → Within (λ a. (a ≡ who) ⊎ Q a) (scheduler_call who high priority ∷ tr)
    Within-high who priority a holds other = elim (Bool-cases (eq_ℤ who a)) [
      | inl same ↦ inl (sym (eq_ℤ-path who a same))
      | inr differs ↦ inr (within a (rw differs at holds) other)
    ]

    pub Within-self : (priority : ℕ) → Within Q (scheduler_call me high priority ∷ tr)
    Within-self priority a holds other = elim (Bool-cases (eq_ℤ me a)) [
      | inl same ↦ absurd (other (sym (eq_ℤ-path me a same)))
      | inr differs ↦ within a (rw differs at holds) other
    ]

    pub Within-low :
        (low : Policy)
        → ¬ (low ≡ high)
        → (who : ℤ) (priority : ℕ)
        → Within (λ a. Q a × ¬ (a ≡ who)) (scheduler_call who low priority ∷ tr)
    Within-low low unlike who priority a holds other = elim (Bool-cases (eq_ℤ who a)) [
      | inl same ↦ let held = rw same at holds in absurd (unlike cc)
      | inr differs ↦ (
        within a (rw differs at holds) other,
        λ e.
            let self = eq_ℤ-self a in
            let wrong : eq_ℤ a a ≡ false = ap (λ w. eq_ℤ w a) e ∙ differs in cc,
      )
    ]

    pub Within-wait : (who : ℤ) → Within (λ a. Q a × ¬ (a ≡ who)) (wait_call who ∷ tr)
    Within-wait who a holds other = elim (Bool-cases (eq_ℤ who a)) [
      | inl same ↦ let held = rw same at holds in absurd cc
      | inr differs ↦ (
        within a (rw differs at holds) other,
        λ e.
            let self = eq_ℤ-self a in
            let wrong : eq_ℤ a a ≡ false = ap (λ w. eq_ℤ w a) e ∙ differs in cc,
      )
    ]

  pub Within-AtMostOne : (owner : Option ℤ) (tr : Trace) → Within (Owner owner) tr → AtMostOne tr
  Within-AtMostOne none tr within a b x y other other' = absurd (within a x other)
  Within-AtMostOne (some who) tr within a b x y other other' =
      within a x other ∙ sym (within b y other')

  -- That holds at each unit of time.
  abbrev pub OneAwake : Trace → Type 0
  OneAwake = AtUnits AtMostOne
