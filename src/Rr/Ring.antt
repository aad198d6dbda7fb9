-- ===== src/Rr/Ring.antt =====
-- Where `RR_next` looks: the first entry that waits, and the next one in the ring.
use mathlib.Core.Path.{ap₂}
use native.Mathlib.Decide.{ℕ_discrete}
use native.Mathlib.Nat.{mod-lt}
use native.Mathlib.Nat.{add_assoc, add-mod_right, mod-add-mod, mod-eq_of_lt}
use os_project.Prelude.{
  ℕ, zero, suc, ◌+◌, ◌%◌, ◌≤◌, ◌<◌, ◌≡◌, refl, ap, ◌∙◌, inl, inr, Option, none, some, List, [], ◌∷◌,
  true, false, Bool-cases, not, ◌&&◌, eq_ℤ, minus_one, ltb_ℤ, pos, get_or, length, arith,
}
use os_project.Process.{Process, is_idle}
use os_project.Process.Jobs.{
  Job, no_job, Entry, Shows, can_run, Entry-is_idle, Shows-get, Shows-length,
}
use os_project.Process.Waiting.{NoneWaits}
use os_project.Os.{Kernel}
use os_project.Rr.{first_ready, rotate}

-- Job `i` is the first that waits.
pub record FirstWaiting (now : ℕ) (js : List Job) (i : ℕ) : Type 0 where
  pub inside : i < length js
  pub waits : can_run (now + 1) (get_or js i no_job) ≡ true
  pub before : (k : ℕ) → k < i → can_run (now + 1) (get_or js k no_job) ≡ false

-- Job `k` waits, and those that stand between `i` and it in the ring do not; `k` is `i` itself
-- where it is the only one that waits.
pub record NextInRing (now : ℕ) (js : List Job) (i k : ℕ) : Type 0 where
  pub waits : can_run (now + 1) (get_or js k no_job) ≡ true
  pub distance : ℕ
  pub positive : 0 < distance
  pub within : distance ≤ length js
  pub place : k ≡ (i + distance) % length js
  pub passed :
      (e : ℕ)
      → 0 < e
      → e < distance
      → can_run (now + 1) (get_or js ((i + e) % length js) no_job) ≡ false

test_can_run :
    {now : ℕ} {p : Process} {j : Job}
    → Entry now p j
    → (not (eq_ℤ p.pid minus_one) && ltb_ℤ (pos 0) p.exec) ≡ can_run now j
test_can_run e = ground arith

step_in_ring : (i d n : ℕ) → ((i + d) % n + 1) % n ≡ (i + (d + 1)) % n
step_in_ring i d n = mod-add-mod (i + d) n 1 ∙ ap (λ t. t % n) (add_assoc i d 1)

full_turn : (i n : ℕ) → i < n → (i + n) % n ≡ i
full_turn i n lt = add-mod_right i n ∙ mod-eq_of_lt lt

module _ (kernel : Kernel) (stray : Process) (now : ℕ) (ps : List Process) (js : List Job) (i : ℕ)
    (shown : Shows (now + 1) ps js) (inside : i < length js)
    (busy : can_run (now + 1) (get_or js i no_job) ≡ true) where
  abbrev ring : ℕ → ℕ
  ring e = (i + e) % length js

  abbrev IdleUpTo : ℕ → Type 0
  IdleUpTo d = (e : ℕ) → 0 < e → e < d → can_run (now + 1) (get_or js (ring e) no_job) ≡ false

  ring_entry : (r d : ℕ) → r ≡ ring d → Entry (now + 1) (get_or ps r stray) (get_or js r no_job)
  ring_entry r d place =
      Shows-get (now + 1) ps js r stray no_job shown (rw place (mod-lt (i + d) (omega arith)))

  idle_longer :
      (r d : ℕ) → r ≡ ring d → is_idle (get_or ps r stray) ≡ true → IdleUpTo d → IdleUpTo (d + 1)
  idle_longer r d place idle h e pos_e lt = elim (ℕ_discrete e d) [
    | yes last ↦ rw (last, ← place) (ground (arith, idle, Entry-is_idle (ring_entry r d place)))
    | no other ↦ h e pos_e (omega arith)
  ]

  rotate-NextInRing :
      (rounds d r : ℕ)
      → 0 < d
      → rounds + d ≡ length js + 1
      → r ≡ ring d
      → IdleUpTo d
      → (k : ℕ) × (rotate kernel stray ps rounds r ≡ some k) × NextInRing now js i k
  unfolding rotate
  rotate-NextInRing zero d r pos_d sum place idle = absurd (
      ground (
        arith,
        busy,
        rw (full_turn i (length js) inside) at (idle (length js) (omega arith) (omega arith)),
      ))
  rotate-NextInRing (suc rounds) d r pos_d sum place idle =
      elim (Bool-cases (is_idle (get_or ps r stray))) [
        | inl skip ↦
            let (k, found, next) =
              rotate-NextInRing rounds (d + 1) ((r + 1) % length ps) (omega arith) (omega arith)
                (ap₂ (λ t n. (t + 1) % n) place (Shows-length (now + 1) ps js shown)
                  ∙ step_in_ring i d (length js))
                (idle_longer r d place skip idle) in
            (k, rw skip found, next)
        | inr here ↦ (
          r,
          rw here,
          record {
            waits = ground (arith, here, Entry-is_idle (ring_entry r d place));
            distance = d;
            positive = pos_d;
            within = omega arith;
            place = place;
            passed = idle;
          },
        )
      ]

  -- While a job that has arrived and is not done holds the turn, the search of RR_next for the next
  -- one ends within one round of the ring, at the first behind it that waits, which is itself where
  -- no other does.
  pub rotate_found :
      (k : ℕ) × (rotate kernel stray ps (length ps) ((i + 1) % length ps) ≡ some k)
      × NextInRing now js i k
  rotate_found = rw (Shows-length (now + 1) ps js shown) (
      rotate-NextInRing (length js) 1 ((i + 1) % length js) (omega arith) refl refl
        (λ e pos_e lt. absurd (omega arith)))

abbrev pub FirstFrom : ℕ → ℕ → List Job → Option ℕ → Type 0
FirstFrom now offset js none = NoneWaits now js
FirstFrom now offset js (some r) = (i : ℕ) × (r ≡ i + offset) × FirstWaiting now js i

skip_first :
    (now offset : ℕ) (j : Job) (js : List Job) (r : Option ℕ)
    → can_run (now + 1) j ≡ false
    → FirstFrom now (suc offset) js r
    → FirstFrom now offset (j ∷ js) r
skip_first now offset j js none idle h = λ i lt. at i lt
  where
    at : (i : ℕ) → i < suc (length js) → can_run (now + 1) (get_or (j ∷ js) i no_job) ≡ false
    at zero lt = idle
    at (suc i) lt = h i (omega arith)
skip_first now offset j js (some r) idle (i, place, first) = (
  suc i,
  omega arith,
  record { inside = omega (arith, first.inside); waits = first.waits; before = before },
)
  where
    before : (k : ℕ) → k < suc i → can_run (now + 1) (get_or (j ∷ js) k no_job) ≡ false
    before zero lt = idle
    before (suc k) lt = first.before k (omega arith)

pub first_ready-FirstFrom :
    (now offset : ℕ) (ps : List Process) (js : List Job)
    → Shows (now + 1) ps js
    → FirstFrom now offset js (first_ready offset ps)
unfolding first_ready
first_ready-FirstFrom now offset [] [] h = λ i lt. absurd (omega arith)
first_ready-FirstFrom now offset [] (j ∷ js) h = absurd h
first_ready-FirstFrom now offset (p ∷ ps) [] h = absurd h
first_ready-FirstFrom now offset (p ∷ ps) (j ∷ js) h = elim (Bool-cases (can_run (now + 1) j)) [
  | inl ready ↦ rw (test_can_run h.0 ∙ ready) (
    0,
    omega arith,
    record { inside = omega arith; waits = ready; before = λ k lt. absurd (omega arith) },
  )
  | inr idle ↦ rw (test_can_run h.0 ∙ idle) (
      skip_first now offset j js (first_ready (suc offset) ps) idle
        (first_ready-FirstFrom now (suc offset) ps js h.1))
]
