-- ===== src/Fifo/Choice.antt =====
-- What `next_proc` chooses in a table that is sorted by the time of arrival.
use os_project.Prelude.{
  ℕ, ◌+◌, ◌≤◌, ◌<◌, ◌≡◌, refl, ap, ◌∙◌, ◌⊎◌, inl, inr, Option, none, some, List, ◌∷◌, ◌++◌, ℤ,
  get_or, length, All, All-before, All-behind, get_or-middle, length-append, arith,
}
use os_project.Process.Workload.{IsOrdered}
use os_project.Process.{Process, least_by}
use os_project.Process.Select.{FirstLeast, least_by-FirstLeast}
use os_project.Process.Jobs.{Job, Entry, Shows, Entry-is_idle, Shows-get, Shows-length}

abbrev pub ready_key : Process → ℤ
ready_key p = p.ready

three_way : (i k : ℕ) → (i < k) ⊎ ((i ≡ k) ⊎ (k < i))
three_way i k = omega arith

module _ (stray : Process) (now : ℕ) (ps : List Process) (done rest : List Job) (j : Job)
    (shown : Shows (now + 1) ps (done ++ j ∷ rest)) where
  abbrev jobs : List Job
  jobs = done ++ j ∷ rest

  get_or-Entry : (i : ℕ) → i < length ps → Entry (now + 1) (get_or ps i stray) (get_or jobs i j)
  get_or-Entry i lt =
      Shows-get (now + 1) ps jobs i stray j shown
        (omega (arith, Shows-length (now + 1) ps jobs shown))

  inside : length done < length ps
  inside =
      omega
        (arith, Shows-length (now + 1) ps jobs shown, length-append {0} {A = Job} done (j ∷ rest))

  pub head_shown : Entry (now + 1) (get_or ps (length done) stray) j
  head_shown = rw (get_or-middle done rest j j) at (get_or-Entry (length done) inside)

  module _ (spent : All (λ d. d.left ≡ 0) done) (ordered : IsOrdered (j ∷ rest))
      (left : 0 < j.left) where
    before_left : (i : ℕ) → i < length done → (get_or jobs i j).left ≡ 0
    before_left i lt = All-before (λ d. d.left ≡ 0) done (j ∷ rest) i j spent lt

    behind_arrival :
        (i : ℕ) → length done < i → i < length ps → j.arrival ≤ (get_or jobs i j).arrival
    behind_arrival i lt in_range =
        All-behind (λ k. j.arrival ≤ k.arrival) done rest j i j ordered.0 lt
          (omega (arith, Shows-length (now + 1) ps jobs shown))

    choose_first :
        (r : Option ℕ)
        → j.arrival ≤ now
        → FirstLeast ready_key stray ps (length ps) r
        → r ≡ some (length done)
    choose_first none come h = ground (arith, h (length done) inside, Entry-is_idle head_shown)
    choose_first (some i) come h = elim (three_way i (length done)) [
      | inl before ↦
          ground (arith, h.busy, Entry-is_idle (get_or-Entry i h.within), before_left i before)
      | inr (inl here) ↦ ap some here
      | inr (inr behind) ↦ ground (
        arith,
        h.first (length done) behind (Entry-is_idle head_shown ∙ ground arith),
        (get_or-Entry i h.within).ready_shown,
        head_shown.ready_shown,
        behind_arrival i behind h.within,
      )
    ]

    pub least_by-first : j.arrival ≤ now → least_by ready_key stray ps ≡ some (length done)
    least_by-first come = choose_first _ come (least_by-FirstLeast ready_key stray ps)

    choose_none :
        (r : Option ℕ) → now < j.arrival → FirstLeast ready_key stray ps (length ps) r → r ≡ none
    choose_none none later h = refl
    choose_none (some i) later h = elim (three_way i (length done)) [
      | inl before ↦
          ground (arith, h.busy, Entry-is_idle (get_or-Entry i h.within), before_left i before)
      | inr (inl here) ↦ ground (arith, rw here at h.busy, Entry-is_idle head_shown)
      | inr (inr behind) ↦
          ground (
            arith,
            h.busy,
            Entry-is_idle (get_or-Entry i h.within),
            behind_arrival i behind h.within,
          )
    ]

    pub least_by-none : now < j.arrival → least_by ready_key stray ps ≡ none
    least_by-none later = choose_none _ later (least_by-FirstLeast ready_key stray ps)
