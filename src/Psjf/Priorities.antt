-- ===== src/Psjf/Priorities.antt =====
-- The priorities that PSJF gives at a switch.
use os_project.Prelude.{
  ℕ, ◌≡◌, refl, Option, none, some, [], ◌∷◌, true, false, if◌then◌else◌, ℤ, minus_one, eq_ℤ, arith,
}
use os_project.Os.{Trace, Kernel, scheduler_call, pre_running_error, running_error}
use os_project.Os.Triple.{Returns, bind_rule}
use os_project.Psjf.{block, high, demote, switch}
use os_project.Psjf.Steps.{set_priority, set_priority_rule}

-- The priority that a process was given last.
abbrev pub priority_of : ℤ → Trace → Option ℕ
priority_of pid [] = none
priority_of pid (scheduler_call p policy priority ∷ tr) =
    if eq_ℤ p pid then some priority else priority_of pid tr
priority_of pid (_ ∷ tr) = priority_of pid tr

same : (pid : ℤ) → eq_ℤ pid pid ≡ true
same pid = ground arith

module _ (kernel : Kernel) where
  demote-high :
      (pre_running : ℤ) (tr : Trace)
      → eq_ℤ pre_running minus_one ≡ false
      → Returns (demote kernel pre_running) tr (λ _ tr'. priority_of pre_running tr' ≡ some high)
  unfolding demote
  demote-high pre_running tr other = rw other (
      set_priority_rule kernel {Post = λ tr'. priority_of pre_running tr' ≡ some high} pre_running
        high (pre_running_error pre_running) tr (rw (same pre_running) refl)
        (rw (same pre_running) refl))

  -- After a switch of PSJF from one process to another, the one that lost the processor has the
  -- priority 90, and the one that is to run has 10.
  pub switch-priority_of :
      (running pre_running : ℤ) (tr : Trace)
      → eq_ℤ pre_running minus_one ≡ false
      → eq_ℤ running pre_running ≡ false
      → Returns
          (switch kernel running pre_running)
          tr
          (λ _ tr'. (priority_of running tr' ≡ some 10) × (priority_of pre_running tr' ≡ some 90))
  unfolding switch
  switch-priority_of running pre_running tr some_process other = rw other (
      bind_rule (demote kernel pre_running)
        (λ _. set_priority kernel running block (running_error running))
        (demote-high pre_running tr some_process)
        λ _ tr' demoted.
          set_priority_rule kernel
            {Post = λ tr''.
              (priority_of running tr'' ≡ some 10) × (priority_of pre_running tr'' ≡ some 90)}
            running block (running_error running) tr' (rw (same running, other) (refl, demoted))
            (rw (same running, other) (refl, demoted)))
