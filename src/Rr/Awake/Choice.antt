-- ===== src/Rr/Awake/Choice.antt =====
-- RR.c, `RR_next`: the pid of the process that it chooses.
use os_project.Prelude.{
  ℕ, zero, suc, ◌+◌, ◌%◌, ◌-◌, ◌<◌, ◌≡◌, inl, inr, refl, Option, none, some, List, [], ◌∷◌,
  Bool-cases, not, ◌&&◌, ◌==◌, ℤ, pos, minus_one, eq_ℤ, ltb_ℤ, get_or, length, arith,
}
use os_project.Process.{Process, proc_at, is_idle}
use os_project.Process.Awake.{IsStarted}
use os_project.Os.{Trace, Kernel, pure, hang}
use os_project.Os.Keeps.{Keeps, pure_keeps, run_keeps, if_keeps}
use os_project.Rr.{State, interval, first_ready, rotate, next_turn, rr_next}
use os_project.Rr.Awake.Control.{Safe, Awake}

module _ (kernel : Kernel) (stray : Process) (me : ℤ) where
  -- Who is chosen has been started.
  first_ready_started :
      (i : ℕ) (ps : List Process) (k : ℕ)
      → first_ready i ps ≡ some k
      → (d : ℕ) × (k ≡ i + d) × (d < length ps → ¬ ((get_or ps d stray).pid ≡ minus_one))
  unfolding first_ready
  first_ready_started i [] k e = cc
  first_ready_started i (p ∷ ps) k e =
      elim (Bool-cases (not (eq_ℤ p.pid minus_one) && ltb_ℤ (pos 0) p.exec)) [
        | inl found ↦
            let here : some i ≡ some k = rw found at e in
            let same : i ≡ k = cc in
            (0, omega (arith, same), λ lt not_yet. let wrong = rw not_yet at found in cc)
        | inr idle ↦
            let (d, place, started) = first_ready_started (suc i) ps k (rw idle at e) in
            (suc d, omega (arith, place), λ lt. started (omega arith))
      ]

  rotate_started :
      (ps : List Process) (rounds ret k : ℕ)
      → rotate kernel stray ps rounds ret ≡ some k
      → ¬ ((get_or ps k stray).pid ≡ minus_one)
  unfolding rotate
  rotate_started ps zero ret k e = cc
  rotate_started ps (suc rounds) ret k e =
      elim (Bool-cases (is_idle (proc_at stray ps (some ret)))) [
        | inl idle ↦ rotate_started ps rounds ((ret + 1) % length ps) k (rw idle at e)
        | inr busy ↦
            let here : some ret ≡ some k = rw busy at e in
            let same : ret ≡ k = cc in λ not_yet. let wrong = rw (same, not_yet) at busy in cc
      ]

  next_turn_keeps :
      (ps : List Process) (i : ℕ) (tr : Trace) (Q : ℤ → Type 0)
      → Safe me tr
      → Awake me Q tr
      → Keeps
          (Safe me)
          (next_turn kernel stray ps i)
          tr
          (λ next tr'. IsStarted stray ps next × Awake me Q tr')
  unfolding next_turn
  next_turn_keeps ps i tr Q safe within =
      go (rotate kernel stray ps (length ps) ((i + 1) % length ps)) refl
    where
      go :
          (found : Option ℕ)
          → rotate kernel stray ps (length ps) ((i + 1) % length ps) ≡ found
          → Keeps
              (Safe me)
              (elim found [ some ret ↦ pure (some ret) | none ↦ hang ])
              tr
              (λ next tr'. IsStarted stray ps next × Awake me Q tr')
      go none e = run_keeps (Safe me) hang tr safe tt
      go (some k) e =
          pure_keeps (Safe me) (some k) tr safe
            (λ lt. rotate_started ps (length ps) ((i + 1) % length ps) k e, within)

  first-IsStarted :
      (ps : List Process) (found : Option ℕ) → first_ready 0 ps ≡ found → IsStarted stray ps found
  first-IsStarted ps none e = tt
  first-IsStarted ps (some k) e =
      let (d, place, started) = first_ready_started 0 ps k e in
      let same : k ≡ d = omega (arith, place) in rw same started

  pub rr_next_keeps :
      (s : State) (running : Option ℕ) (tr : Trace) (Q : ℤ → Type 0)
      → s.running ≡ running
      → Safe me tr
      → Awake me Q tr
      → IsStarted stray s.proc running
      → Keeps
          (Safe me)
          (rr_next kernel stray s)
          tr
          (λ next tr'. IsStarted stray s.proc next × Awake me Q tr')
  unfolding rr_next
  rr_next_keeps s none tr Q e safe within started =
      rw (e, rr_next)
        (pure_keeps (Safe me) (first_ready 0 s.proc) tr safe
          (first-IsStarted s.proc (first_ready 0 s.proc) refl, within))
  rr_next_keeps s (some i) tr Q e safe within started =
      rw (e, rr_next)
        (if_keeps (Safe me) ((s.time_now - s.time_last) % interval == 0)
          (next_turn kernel stray s.proc i) (pure (some i)) tr
          (λ _. next_turn_keeps s.proc i tr Q safe within)
          (λ _. pure_keeps (Safe me) (some i) tr safe (started, within)))
