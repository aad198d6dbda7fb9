-- ===== src/Process/Waiting.antt =====
-- The jobs that have arrived and have something left, and the first of the shortest of them.
use os_project.Prelude.{
  ℕ, ◌+◌, ◌≤◌, ◌<◌, ◌≡◌, ◌⊎◌, inl, inr, arith, List, true, false, get_or, length,
}
use os_project.Process.Work.{done_count, left-le-total_left, total_left-zero}
use os_project.Process.Jobs.{Job, no_job, can_run}

-- No job has both arrived by `now` and something left.
abbrev pub NoneWaits : ℕ → List Job → Type 0
NoneWaits now js = (i : ℕ) → i < length js → can_run (now + 1) (get_or js i no_job) ≡ false

-- Job `i` waits, none that waits is shorter, and those in front of it are longer.
pub record Shortest (now : ℕ) (js : List Job) (i : ℕ) : Type 0 where
  pub inside : i < length js
  pub waits : can_run (now + 1) (get_or js i no_job) ≡ true
  pub least :
      (k : ℕ)
      → k < length js
      → can_run (now + 1) (get_or js k no_job) ≡ true
      → (get_or js i no_job).left ≤ (get_or js k no_job).left
  pub first :
      (k : ℕ)
      → k < i
      → can_run (now + 1) (get_or js k no_job) ≡ true
      → (get_or js i no_job).left < (get_or js k no_job).left

-- There is one at most, none where nothing waits, and then not all are done.
module _ (now : ℕ) (js : List Job) (i : ℕ) (h : Shortest now js i) where
  pub Shortest-unique : (k : ℕ) → Shortest now js k → i ≡ k
  Shortest-unique k h' = elim (apart i k) [
    | inl same ↦ same
    | inr (inl before) ↦
        absurd (omega (arith, h'.first i before h.waits, h.least k h'.inside h'.waits))
    | inr (inr after) ↦
        absurd (omega (arith, h.first k after h'.waits, h'.least i h.inside h.waits))
  ]
    where
      apart : (i k : ℕ) → (i ≡ k) ⊎ ((i < k) ⊎ (k < i))
      apart i k = omega arith

  pub Shortest-NoneWaits : ¬ (NoneWaits now js)
  Shortest-NoneWaits idle = let wrong = idle i h.inside in let waits = h.waits in cc

  pub Shortest-undone : ¬ (done_count js ≡ length js)
  Shortest-undone over =
      ground (arith, h.waits, left-le-total_left no_job js i h.inside, total_left-zero js over)
