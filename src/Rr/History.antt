-- ===== src/Rr/History.antt =====
-- What a run of RR has reported so far, and the sum that `wait` holds.
use os_project.Prelude.{
  ℕ, zero, suc, ◌+◌, ◌-◌, ◌*◌, ◌≤◌, ◌<◌, ◌≡◌, refl, ap, ◌∙◌, List, [], ◌∷◌, ◌++◌, get_or, set,
  length, length-set, arith,
}
use os_project.Process.{Name}
use os_project.Process.Jobs.{Job, no_job}
use os_project.Process.Work.{spend}
use os_project.Rr.Turns.{use_unit}

-- The lines `Finish` of the ends in `past`, each an index and a time.
abbrev pub reports : List Job → List (ℕ × ℕ) → List (Name × ℕ)
reports start [] = []
reports start ((i, time) ∷ past) = ((get_or start i no_job).name, time) ∷ reports start past

-- The times from the arrivals to the ends, together.
abbrev pub turnaround : List Job → List (ℕ × ℕ) → ℕ
turnaround start [] = 0
turnaround start ((i, time) ∷ past) =
    (time - (get_or start i no_job).arrival) + turnaround start past

pub reports-snoc :
    (start : List Job) (past : List (ℕ × ℕ)) (i time : ℕ)
    → reports start (past ++ (i, time) ∷ [])
      ≡ reports start past ++ ((get_or start i no_job).name, time) ∷ []
reports-snoc start [] i time = refl
reports-snoc start ((k, t) ∷ past) i time =
    ap (λ l. ((get_or start k no_job).name, t) ∷ l) (reports-snoc start past i time)

pub turnaround-snoc :
    (start : List Job) (past : List (ℕ × ℕ)) (i time : ℕ)
    → turnaround start (past ++ (i, time) ∷ [])
      ≡ turnaround start past + (time - (get_or start i no_job).arrival)
turnaround-snoc start [] i time = omega arith
turnaround-snoc start ((k, t) ∷ past) i time = omega (arith, turnaround-snoc start past i time)

-- The jobs have the names and the arrivals that they had at the start.
pub record Keeps (start js : List Job) : Type 0 where
  pub names : (k : ℕ) → (get_or js k no_job).name ≡ (get_or start k no_job).name
  pub arrivals : (k : ℕ) → (get_or js k no_job).arrival ≡ (get_or start k no_job).arrival
  pub lengths : length js ≡ length start

get_or-spend_name :
    (js : List Job) (i k : ℕ) (d : Job)
    → (get_or (set js i (spend (get_or js i d))) k d).name ≡ (get_or js k d).name
get_or-spend_name [] i k d = refl
get_or-spend_name (j ∷ js) zero zero d = refl
get_or-spend_name (j ∷ js) zero (suc k) d = refl
get_or-spend_name (j ∷ js) (suc i) zero d = refl
get_or-spend_name (j ∷ js) (suc i) (suc k) d = get_or-spend_name js i k d

get_or-spend_arrival :
    (js : List Job) (i k : ℕ) (d : Job)
    → (get_or (set js i (spend (get_or js i d))) k d).arrival ≡ (get_or js k d).arrival
get_or-spend_arrival [] i k d = refl
get_or-spend_arrival (j ∷ js) zero zero d = refl
get_or-spend_arrival (j ∷ js) zero (suc k) d = refl
get_or-spend_arrival (j ∷ js) (suc i) zero d = refl
get_or-spend_arrival (j ∷ js) (suc i) (suc k) d = get_or-spend_arrival js i k d

pub use_unit-Keeps : (start js : List Job) (i : ℕ) → Keeps start js → Keeps start (use_unit js i)
use_unit-Keeps start js i h = record {
  names = λ k. get_or-spend_name js i k no_job ∙ h.names k;
  arrivals = λ k. get_or-spend_arrival js i k no_job ∙ h.arrivals k;
  lengths = length-set js i _ ∙ h.lengths;
}

-- The sum stays below the number of the ends times the time of the last.
pub one_more :
    (w now f limit n bound : ℕ)
    → w ≤ f * limit
    → now ≤ limit
    → f < n
    → n * limit ≤ bound
    → w + now ≤ bound
one_more w now f limit n bound h k lt fits = grind arith

pub one_more_end : (w d f limit : ℕ) → w ≤ f * limit → d ≤ limit → w + d ≤ (f + 1) * limit
one_more_end w d f limit h k = grind arith
