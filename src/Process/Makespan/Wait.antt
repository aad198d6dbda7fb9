-- ===== src/Process/Makespan/Wait.antt =====
-- A unit of time in which nothing can run leaves the makespan.
use os_project.Prelude.{
  ℕ, zero, suc, ◌+◌, ◌≤◌, ◌<◌, ◌≡◌, ◌⊎◌, inl, inr, refl, List, [], ◌∷◌, Bool-cases, ◌==◌, get_or,
  length, arith,
}
use os_project.Process.Jobs.{Job, no_job}
use os_project.Process.Work.{total_left, done_count, total_left-zero, left-le-total_left}
use os_project.Process.Waiting.{NoneWaits}
use os_project.Process.Makespan.{IsBound, IsMakespan, IsMakespan-same, late-all}

-- The first to arrive of the jobs with something left.
record IsEarliest (js : List Job) (i : ℕ) : Type 0 where
  inside : i < length js
  left : 0 < (get_or js i no_job).left
  first :
      (k : ℕ)
      → k < length js
      → 0 < (get_or js k no_job).left
      → (get_or js i no_job).arrival ≤ (get_or js k no_job).arrival

behind :
    (j : Job) (js : List Job) (i : ℕ)
    → IsEarliest js i
    → (0 < j.left → (get_or js i no_job).arrival ≤ j.arrival)
    → IsEarliest (j ∷ js) (suc i)
behind j js i h later = record { inside = omega (arith, h.inside); left = h.left; first = first }
  where
    first :
        (k : ℕ)
        → k < suc (length js)
        → 0 < (get_or (j ∷ js) k no_job).left
        → (get_or js i no_job).arrival ≤ (get_or (j ∷ js) k no_job).arrival
    first zero lt left = later left
    first (suc k) lt left = h.first k (omega arith) left

ahead :
    (j : Job) (js : List Job)
    → 0 < j.left
    → ((k : ℕ)
        → k < length js
        → 0 < (get_or js k no_job).left
        → j.arrival ≤ (get_or js k no_job).arrival)
    → IsEarliest (j ∷ js) 0
ahead j js left h = record { inside = omega arith; left = left; first = first }
  where
    first :
        (k : ℕ)
        → k < suc (length js)
        → 0 < (get_or (j ∷ js) k no_job).left
        → j.arrival ≤ (get_or (j ∷ js) k no_job).arrival
    first zero lt left = omega arith
    first (suc k) lt left = h k (omega arith) left

nothing_left :
    (js : List Job)
    → done_count js ≡ length js
    → (k : ℕ) → k < length js
    → (get_or js k no_job).left ≡ 0
nothing_left js over k lt =
    omega (arith, left-le-total_left no_job js k lt, total_left-zero js over)

earlier : (a b : ℕ) → (a ≤ b) ⊎ (b < a)
earlier a b = omega arith

IsEarliest-cons :
    (j : Job) (js : List Job)
    → (done_count js ≡ length js) ⊎ ((i : ℕ) × IsEarliest js i)
    → (done_count (j ∷ js) ≡ length (j ∷ js)) ⊎ ((i : ℕ) × IsEarliest (j ∷ js) i)
unfolding done_count
IsEarliest-cons j js (inl over) = elim (Bool-cases (j.left == 0)) [
  | inl done ↦ inl (rw done (omega arith))
  | inr more ↦ inr (
    0,
    ahead j js (ground (arith, more))
        (λ k lt left. absurd (omega (arith, nothing_left js over k lt))),
  )
]
IsEarliest-cons j js (inr (i, h)) = elim (Bool-cases (j.left == 0)) [
  | inl done ↦ inr (suc i, behind j js i h (λ left. absurd (ground (arith, done, left))))
  | inr more ↦ elim (earlier (get_or js i no_job).arrival j.arrival) [
    | inl before ↦ inr (suc i, behind j js i h (λ left. before))
    | inr after_it ↦
        inr (0, ahead j js (ground (arith, more)) (λ k lt left. omega (arith, h.first k lt left)))
  ]
]

earliest : (js : List Job) → (done_count js ≡ length js) ⊎ ((i : ℕ) × IsEarliest js i)
unfolding done_count
earliest [] = inl refl
earliest (j ∷ js) = IsEarliest-cons j js (earliest js)

-- Where nothing can run, a unit of time leaves the bounds.
module _ (now : ℕ) (js : List Job) (undone : done_count js < length js)
    (idle : NoneWaits now js) where
  later_total : (b : ℕ) → IsBound now js b → now + 1 + total_left js ≤ b
  later_total b h = elim (earliest js) [
    | inl over ↦ absurd (omega arith)
    | inr (i, first) ↦
        let late : now + 1 ≤ (get_or js i no_job).arrival =
          ground (arith, idle i first.inside, first.left) in
        omega (
          arith,
          h.late i first.inside first.left,
          late-all (get_or js i no_job).arrival js first.first,
        )
  ]

  pub IsMakespan-idle : (e : ℕ) → IsMakespan (now + 1) js e → IsMakespan now js e
  IsMakespan-idle e = IsMakespan-same now (now + 1) js js e λ b. (
    λ h. record { all_work = later_total b h; late = h.late },
    λ h. record { all_work = omega (arith, h.all_work); late = h.late },
  )

-- A scheduler with nothing left to do is through.
pub IsMakespan-over : (now : ℕ) (js : List Job) → done_count js ≡ length js → IsMakespan now js now
IsMakespan-over now js over = record {
  bound = record {
    all_work = omega (arith, total_left-zero js over);
    late = λ k lt left. absurd (omega (arith, nothing_left js over k lt));
  };
  least = λ b h. omega (arith, h.all_work);
}
