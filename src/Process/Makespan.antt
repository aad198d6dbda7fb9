-- ===== src/Process/Makespan.antt =====
-- The time by which a scheduler is through that never idles while a job waits: it does not depend on
-- the order in which the jobs get the processor.
pub mod Work
pub mod Wait
pub mod Order
pub mod Sorted
use os_project.Prelude.{
  ℕ, zero, suc, ◌+◌, ◌-◌, ◌≤◌, ◌<◌, ◌≡◌, ◌≢◌, ◌⊎◌, ◌↔◌, inl, inr, refl, ap, ◌∙◌, List, [], ◌∷◌,
  Bool, true, false, Bool-cases, not, ◌&&◌, ◌==◌, ltb, if◌then◌else◌, All, All-get_or, get_or, set,
  length, length-set, get_or-set_same, arith,
}
use os_project.Process.Jobs.{Job, no_job, can_run}
use os_project.Process.Work.{
  total_left, done_count, done_count-le, total_left-zero, left-le-total_left,
}
use os_project.Process.Waiting.{NoneWaits}

-- The work of the jobs that arrive at `a` or later.
unfoldable pub late_work : ℕ → List Job → ℕ
late_work a [] = 0
late_work a (j ∷ js) = (if ltb j.arrival a then 0 else j.left) + late_work a js

-- No scheduler that starts at `now` is through before `e`: it has all the work to do from `now` on,
-- and the work of the jobs that come no earlier than a job from that job's arrival on.
pub record IsBound (now : ℕ) (js : List Job) (e : ℕ) : Type 0 where
  pub all_work : now + total_left js ≤ e
  pub late :
      (k : ℕ)
      → k < length js
      → 0 < (get_or js k no_job).left
      → (get_or js k no_job).arrival + late_work (get_or js k no_job).arrival js ≤ e

-- The least such time.
pub record IsMakespan (now : ℕ) (js : List Job) (e : ℕ) : Type 0 where
  pub bound : IsBound now js e
  pub least : (e' : ℕ) → IsBound now js e' → e ≤ e'

pub IsMakespan-unique :
    (now : ℕ) (js : List Job) (e e' : ℕ) → IsMakespan now js e → IsMakespan now js e' → e ≡ e'
IsMakespan-unique now js e e' h h' = omega (arith, h.least e' h'.bound, h'.least e h.bound)

-- The same bounds, the same makespan.
pub IsMakespan-same :
    (now now' : ℕ) (js js' : List Job) (e : ℕ)
    → ((b : ℕ) → IsBound now js b ↔ IsBound now' js' b)
    → IsMakespan now' js' e
    → IsMakespan now js e
IsMakespan-same now now' js js' e same h = record {
  bound = (same e).1 h.bound;
  least = λ b k. h.least b ((same b).0 k);
}

pub late-le-total : (a : ℕ) (js : List Job) → late_work a js ≤ total_left js
unfolding late_work total_left
late-le-total a [] = omega arith
late-le-total a (j ∷ js) = ground (arith, late-le-total a js)

pub late-all :
    (a : ℕ) (js : List Job)
    → ((k : ℕ) → k < length js → 0 < (get_or js k no_job).left → a ≤ (get_or js k no_job).arrival)
    → late_work a js ≡ total_left js
unfolding late_work total_left
late-all a [] h = refl
late-all a (j ∷ js) h =
    ground (arith, h 0 (omega arith), late-all a js (λ k lt. h (suc k) (omega arith)))

-- Whatever the order, all is done by the last arrival and all the work together.
pub late-IsBound :
    (latest : ℕ) (js : List Job)
    → All (λ j. j.arrival ≤ latest) js
    → IsBound 0 js (latest + total_left js)
late-IsBound latest js early = record {
  all_work = omega arith;
  late = λ k lt left. omega (
    arith,
    All-get_or (λ j. j.arrival ≤ latest) js k no_job early lt,
    late-le-total (get_or js k no_job).arrival js,
  );
}

-- The time of the last end, or `now` where there is none.
abbrev pub last_time {ℓ} : {A : Type ℓ} → ℕ → List (A × ℕ) → ℕ
last_time now [] = now
last_time now ((who, time) ∷ out) = last_time time out
