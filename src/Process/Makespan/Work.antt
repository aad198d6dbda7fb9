-- ===== src/Process/Makespan/Work.antt =====
-- Units of time for a job that has arrived leave the makespan.
use os_project.Prelude.{
  ℕ, zero, suc, ◌+◌, ◌-◌, ◌≤◌, ◌<◌, ◌≡◌, ◌⊎◌, inl, inr, refl, ap, List, [], ◌∷◌, get_or, set,
  length, length-set, get_or-set_same, arith,
}
use os_project.Process.Jobs.{Job, no_job}
use os_project.Process.Work.{total_left}
use os_project.Process.Makespan.{late_work, IsBound, IsMakespan, IsMakespan-same, late-le-total}

-- Job `i` after `d` units of time.
abbrev pub after : List Job → ℕ → ℕ → List Job
after js i d = set js i (record (get_or js i no_job) { left = (get_or js i no_job).left - d })

late-after-le : (a : ℕ) (js : List Job) (i d : ℕ) → late_work a (after js i d) ≤ late_work a js
unfolding late_work
late-after-le a [] i d = omega arith
late-after-le a (j ∷ js) zero d = ground arith
late-after-le a (j ∷ js) (suc i) d = ground (arith, late-after-le a js i d)

-- Work on a job that came before `a` leaves the work from `a` on.
late-after-early :
    (a : ℕ) (js : List Job) (i d : ℕ)
    → (get_or js i no_job).arrival < a
    → late_work a (after js i d) ≡ late_work a js
unfolding late_work
late-after-early a [] i d early = refl
late-after-early a (j ∷ js) zero d early = ground arith
late-after-early a (j ∷ js) (suc i) d early = omega (arith, late-after-early a js i d early)

total-after :
    (js : List Job) (i d : ℕ)
    → i < length js
    → d ≤ (get_or js i no_job).left
    → total_left (after js i d) + d ≡ total_left js
unfolding total_left
total-after [] i d lt le = elim lt [ ]
total-after (j ∷ js) zero d lt le = omega arith
total-after (j ∷ js) (suc i) d lt le = omega (arith, total-after js i d (omega arith) le)

pub arrival-after :
    (js : List Job) (i d k : ℕ)
    → (get_or (after js i d) k no_job).arrival ≡ (get_or js k no_job).arrival
arrival-after js i d k = get_or-set_same (λ (j : Job). j.arrival) js i k _ no_job refl

left-after-le :
    (js : List Job) (i d k : ℕ) → (get_or (after js i d) k no_job).left ≤ (get_or js k no_job).left
left-after-le [] i d k = omega arith
left-after-le (j ∷ js) zero d zero = omega arith
left-after-le (j ∷ js) zero d (suc k) = omega arith
left-after-le (j ∷ js) (suc i) d zero = omega arith
left-after-le (j ∷ js) (suc i) d (suc k) = left-after-le js i d k

left-after-other :
    (js : List Job) (i d k : ℕ)
    → (get_or (after js i d) k no_job).left ≡ (get_or js k no_job).left
      ⊎ ((get_or js k no_job).arrival ≡ (get_or js i no_job).arrival)
left-after-other [] i d k = inl refl
left-after-other (j ∷ js) zero d zero = inr refl
left-after-other (j ∷ js) zero d (suc k) = inl refl
left-after-other (j ∷ js) (suc i) d zero = inl refl
left-after-other (j ∷ js) (suc i) d (suc k) = left-after-other js i d k

-- Units of time for a job that has arrived leave the bounds.
module _ (now : ℕ) (js : List Job) (i d e : ℕ) (inside : i < length js)
    (come : (get_or js i no_job).arrival ≤ now) (fits : d ≤ (get_or js i no_job).left) where
  after-IsBound : IsBound now js e → IsBound (now + d) (after js i d) e
  after-IsBound b = record {
    all_work = omega (arith, b.all_work, total-after js i d inside fits);
    late = λ k lt left. omega (
      arith,
      b.late k
          (omega (
            arith,
            length-set js i (record (get_or js i no_job) { left = (get_or js i no_job).left - d }),
          ))
          (omega (arith, left-after-le js i d k)),
      arrival-after js i d k,
      late-after-le (get_or js k no_job).arrival js i d,
      ap (λ a. late_work a (after js i d)) (arrival-after js i d k),
    );
  }

  before-IsBound : IsBound (now + d) (after js i d) e → IsBound now js e
  before-IsBound b = record {
    all_work = all_work;
    late = λ k lt left. elim (early_or_late (get_or js k no_job).arrival) [
      | inl early ↦ omega (arith, all_work, late-le-total (get_or js k no_job).arrival js)
      | inr later ↦ omega (
        arith,
        b.late k
            (omega (
              arith,
              length-set js i
                  (record (get_or js i no_job) { left = (get_or js i no_job).left - d }),
            ))
            (still_left k left later (left-after-other js i d k)),
        arrival-after js i d k,
        late-after-early (get_or js k no_job).arrival js i d (omega arith),
        ap (λ a. late_work a (after js i d)) (arrival-after js i d k),
      )
    ];
  }
    where
      all_work : now + total_left js ≤ e
      all_work = omega (arith, b.all_work, total-after js i d inside fits)

      early_or_late : (a : ℕ) → (a ≤ now) ⊎ (now < a)
      early_or_late a = omega arith

      still_left :
          (k : ℕ)
          → 0 < (get_or js k no_job).left
          → now < (get_or js k no_job).arrival
          → (get_or (after js i d) k no_job).left ≡ (get_or js k no_job).left
            ⊎ ((get_or js k no_job).arrival ≡ (get_or js i no_job).arrival)
          → 0 < (get_or (after js i d) k no_job).left
      still_left k left later (inl same) = omega arith
      still_left k left later (inr same) = absurd (omega (arith, come))

-- The makespan of the rest, after units of time for a job that has arrived.
pub IsMakespan-after :
    (now : ℕ) (js : List Job) (i d e : ℕ)
    → i < length js
    → (get_or js i no_job).arrival ≤ now
    → d ≤ (get_or js i no_job).left
    → IsMakespan (now + d) (after js i d) e
    → IsMakespan now js e
IsMakespan-after now js i d e inside come fits =
    IsMakespan-same now (now + d) js (after js i d) e λ b.
      (after-IsBound now js i d b inside come fits, before-IsBound now js i d b inside come fits)
