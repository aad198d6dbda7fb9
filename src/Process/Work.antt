-- ===== src/Process/Work.antt =====
-- The work that is left in a list of jobs, and the time by which a scheduler that never idles
-- without need is through with it.
use os_project.Prelude.{
  All-get_or, ℕ, zero, suc, ◌+◌, ◌-◌, ◌≤◌, ◌<◌, max, ◌≡◌, refl, inl, inr, List, [], ◌∷◌, false,
  Bool-cases, ◌==◌, if◌then◌else◌, length, get_or, set, All, All-get_or, arith,
}
use os_project.Process.Jobs.{Job, can_run}

unfoldable pub total_left : List Job → ℕ
total_left [] = 0
total_left (j ∷ js) = j.left + total_left js

-- The number of jobs that are done.
unfoldable pub done_count : List Job → ℕ
done_count [] = 0
done_count (j ∷ js) = (if j.left == 0 then 1 else 0) + done_count js

-- The job after a unit of time on the processor.
abbrev pub spend : Job → Job
spend j = record j { left = j.left - 1 }

module _ (none : Job) where
  pub total_left-spend :
      (js : List Job) (i : ℕ)
      → i < length js
      → 0 < (get_or js i none).left
      → total_left (set js i (spend (get_or js i none))) + 1 ≡ total_left js
  unfolding total_left
  total_left-spend [] i lt left = elim lt [ ]
  total_left-spend (j ∷ js) zero lt left = omega arith
  total_left-spend (j ∷ js) (suc i) lt left =
      omega (arith, total_left-spend js i (omega arith) left)

  pub left-le-total_left :
      (js : List Job) (i : ℕ) → i < length js → (get_or js i none).left ≤ total_left js
  unfolding total_left
  left-le-total_left [] i lt = elim lt [ ]
  left-le-total_left (j ∷ js) zero lt = omega arith
  left-le-total_left (j ∷ js) (suc i) lt = omega (arith, left-le-total_left js i (omega arith))

  -- A unit of time adds a job to the done ones when it was the job's last.
  pub done_count-spend :
      (js : List Job) (i : ℕ)
      → i < length js
      → 0 < (get_or js i none).left
      → done_count (set js i (spend (get_or js i none)))
        ≡ (if (get_or js i none).left == 1 then 1 else 0) + done_count js
  unfolding done_count
  done_count-spend [] i lt left = elim lt [ ]
  done_count-spend (j ∷ js) zero lt left = ground arith
  done_count-spend (j ∷ js) (suc i) lt left =
      ground (arith, done_count-spend js i (omega arith) left)

  pub All-spend :
      (P : Job → Type 0) (js : List Job) (i : ℕ)
      → ((j : Job) → P j → P (spend j))
      → All P js
      → All P (set js i (spend (get_or js i none)))
  All-spend P [] i keep h = tt
  All-spend P (j ∷ js) zero keep h = (keep j h.0, h.1)
  All-spend P (j ∷ js) (suc i) keep h = (h.0, All-spend P js i keep h.1)

  -- While not all jobs are done, one has something left.
  pub some_left :
      (js : List Job)
      → done_count js < length js
      → (i : ℕ) × (i < length js) × (0 < (get_or js i none).left)
  unfolding done_count
  some_left [] lt = elim lt [ ]
  some_left (j ∷ js) lt = elim (Bool-cases (j.left == 0)) [
    | inl over ↦ let (i, inside, left) = some_left js (ground arith) in (suc i, omega arith, left)
    | inr more ↦ (0, omega arith, ground arith)
  ]

pub done_count-le : (js : List Job) → done_count js ≤ length js
unfolding done_count
done_count-le [] = omega arith
done_count-le (j ∷ js) = ground (arith, done_count-le js)

-- At the start no job is done.
pub done_count-zero : (js : List Job) → All (λ j. 0 < j.left) js → done_count js ≡ 0
unfolding done_count
done_count-zero [] h = refl
done_count-zero (j ∷ js) h = ground (arith, h.0, done_count-zero js h.1)

-- All jobs are done when nothing is left.
pub total_left-zero : (js : List Job) → done_count js ≡ length js → total_left js ≡ 0
unfolding done_count total_left
total_left-zero [] e = refl
total_left-zero (j ∷ js) e = ground (arith, done_count-le js, total_left-zero js)

-- The last arrival is at `latest` at most, and at `now` there is time up to `limit` for the rest.
pub record Budget (latest limit now : ℕ) (js : List Job) : Type 0 where
  pub arrivals : All (λ j. j.arrival ≤ latest) js
  pub room : max now latest + total_left js ≤ limit

module _ (none : Job) {latest limit now : ℕ} {js : List Job} where
  -- Where nothing can run, something is still to arrive.
  pub Budget-idle :
      Budget latest limit now js
      → done_count js < length js
      → ((i : ℕ) → i < length js → can_run (now + 1) (get_or js i none) ≡ false)
      → Budget latest limit (now + 1) js × (now < limit)
  Budget-idle b undone idle =
      let (i, inside, left) = some_left none js undone in
      let early = All-get_or (λ j. j.arrival ≤ latest) js i none b.arrivals inside in
      let later : now < (get_or js i none).arrival = ground (arith, idle i inside) in
      (record { arrivals = b.arrivals; room = omega (arith, b.room) }, omega (arith, b.room))

  pub Budget-run :
      Budget latest limit now js
      → (i : ℕ) → i < length js
      → 0 < (get_or js i none).left
      → Budget latest limit (now + 1) (set js i (spend (get_or js i none))) × (now < limit)
  Budget-run b i inside left = (
    record {
      arrivals = All-spend none (λ j. j.arrival ≤ latest) js i (λ j h. h) b.arrivals;
      room = omega (arith, b.room, total_left-spend none js i inside left);
    },
    omega (arith, b.room, left-le-total_left none js i inside),
  )
