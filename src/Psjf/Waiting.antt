-- ===== src/Psjf/Waiting.antt =====
-- The table shows jobs, and `find_min_index` finds the first of the shortest that wait.
use os_project.Prelude.{
  ℕ, zero, suc, ◌+◌, ◌≤◌, ◌<◌, ◌≡◌, refl, sym, ap, ◌∙◌, ◌⊎◌, inl, inr, List, [], ◌∷◌, true, false,
  Bool-cases, if◌then◌else◌, ℤ, pos, eq_ℤ, get_or, length, arith,
}
use os_project.Process.{Process}
use os_project.Process.Jobs.{Job, no_job, can_run, Pointwise, Pointwise-get, Pointwise-length}
use os_project.Process.Waiting.{NoneWaits, Shortest}
use os_project.Os.{int_max}
use os_project.Psjf.{some_process_is_ready, is_less, find_from, find_min_index}

-- The entry `p` shows the job `j`: it is marked as waiting from its arrival until it is done.
pub record Entry (now : ℕ) (p : Process) (j : Job) : Type 0 where
  pub name_shown : p.name ≡ j.name
  pub ready_shown : p.ready ≡ pos j.arrival
  pub exec_shown : p.exec ≡ pos j.left
  pub waiting_shown : eq_ℤ p.waiting (pos 1) ≡ can_run now j
  pub untouched : now ≤ j.arrival → 0 < j.left

abbrev pub Shows : ℕ → List Process → List Job → Type 0
Shows now = Pointwise (Entry now)

some_ready :
    (now : ℕ) (ps : List Process) (js : List Job)
    → Shows now ps js
    → some_process_is_ready ps ≡ true
    → (i : ℕ) × (i < length js) × (can_run now (get_or js i no_job) ≡ true)
unfolding some_process_is_ready
some_ready now [] [] h e = absurd cc
some_ready now [] (j ∷ js) h e = absurd h
some_ready now (p ∷ ps) [] h e = absurd h
some_ready now (p ∷ ps) (j ∷ js) h e = elim (Bool-cases (eq_ℤ p.waiting (pos 1))) [
  | inl ready ↦ (0, omega arith, sym h.0.waiting_shown ∙ ready)
  | inr other ↦ let (i, lt, w) = some_ready now ps js h.1 (rw other at e) in (suc i, omega arith, w)
]

none_ready :
    (now : ℕ) (ps : List Process) (js : List Job)
    → Shows now ps js
    → some_process_is_ready ps ≡ false
    → (i : ℕ) → i < length js
    → can_run now (get_or js i no_job) ≡ false
unfolding some_process_is_ready
none_ready now [] [] h e i lt = elim lt [ ]
none_ready now [] (j ∷ js) h e i lt = absurd h
none_ready now (p ∷ ps) [] h e i lt = absurd h
none_ready now (p ∷ ps) (j ∷ js) h e zero lt = ground (arith, e, h.0.waiting_shown)
none_ready now (p ∷ ps) (j ∷ js) h e (suc i) lt =
    none_ready now ps js h.1 (ground (arith, e)) i (omega arith)

last_or_below : (i k : ℕ) → i < suc k → (i < k) ⊎ (i ≡ k)
last_or_below i k h = omega arith

-- A fact of the jobs below `k` and of job `k` is one of the jobs below `k + 1`.
extend : (P : ℕ → Type 0) (k : ℕ) → ((i : ℕ) → i < k → P i) → P k → (i : ℕ) → i < suc k → P i
extend P k below here i lt = elim (last_or_below i k lt) [
  | inl less ↦ below i less
  | inr last ↦ rw last here
]

module _ (now : ℕ) (js : List Job) where
  abbrev job : ℕ → Job
  job i = get_or js i no_job

  abbrev Ready : ℕ → Type 0
  Ready i = can_run now (job i) ≡ true

  -- Job `i` is the first of the shortest that wait below `bound`.
  record IsLeast (bound i : ℕ) : Type 0 where
    inside : i < bound
    waits : Ready i
    least : (k : ℕ) → k < bound → Ready k → (job i).left ≤ (job k).left
    first : (k : ℕ) → k < i → Ready k → (job i).left < (job k).left

  -- What `min` and `index` are after the entries below `bound`.
  data Held (bound : ℕ) (min : ℤ) (index : ℕ) : Type 0 where
    nothing :
        min ≡ pos int_max
        → ((k : ℕ) → k < bound → can_run now (job k) ≡ false)
        → Held bound min index
    held : min ≡ pos (job index).left → IsLeast bound index → Held bound min index

  Held-new :
      (k : ℕ) (p : Process) (min : ℤ) (index : ℕ)
      → Entry now p (job k)
      → is_less p min ≡ true
      → Held k min index
      → Held (suc k) p.exec k
  Held-new k p min index e less (nothing m none) = held e.exec_shown (record {
    inside = omega arith;
    waits = ground (arith, e.waiting_shown, less);
    least =
        extend (λ i. Ready i → (job k).left ≤ (job i).left) k (λ i lt w. cc (none i lt))
          (λ w. omega arith);
    first = λ i lt w. cc (none i lt);
  })
  Held-new k p min index e less (held m l) = held e.exec_shown (record {
    inside = omega arith;
    waits = ground (arith, e.waiting_shown, less);
    least =
        extend (λ i. Ready i → (job k).left ≤ (job i).left) k
          (λ i lt w. omega (arith, shorter, l.least i lt w)) (λ w. omega arith);
    first = λ i lt w. omega (arith, shorter, l.least i lt w);
  })
    where
      shorter : (job k).left < (job index).left
      shorter = ground (arith, e.exec_shown, less, m)

  Held-kept :
      (k : ℕ) (p : Process) (min : ℤ) (index : ℕ)
      → (job k).left < int_max
      → Entry now p (job k)
      → is_less p min ≡ false
      → Held k min index
      → Held (suc k) min index
  Held-kept k p min index small e other (nothing m none) = nothing m (
      extend (λ i. can_run now (job i) ≡ false) k none
        (ground (arith, small, e.exec_shown, e.waiting_shown, other, m)))
  Held-kept k p min index small e other (held m l) = held m (record {
    inside = omega (arith, l.inside);
    waits = l.waits;
    least =
        extend (λ i. Ready i → (job index).left ≤ (job i).left) k l.least
          (λ w. ground (arith, e.exec_shown, e.waiting_shown, other, m, w));
    first = l.first;
  })

  module _ (stray : Process) (proc : List Process) (shown : Shows now proc js)
      (small : (k : ℕ) → k < length js → (job k).left < int_max) where
    find_from-Held :
        (ps : List Process) (k : ℕ) (min : ℤ) (index : ℕ)
        → ((i : ℕ) → get_or ps i stray ≡ get_or proc (i + k) stray)
        → length ps + k ≡ length js
        → Held k min index
        → (m : ℤ) × Held (length js) m (find_from k min index ps)
    unfolding find_from
    find_from-Held [] k min index same len h =
        let e : k ≡ length js = omega arith in (min, rw (← e) h)
    find_from-Held (p ∷ ps) k min index same len h =
        find_from-Held ps (suc k) (if is_less p min then p.exec else min)
          (if is_less p min then k else index)
          (λ i. same (suc i) ∙ ap (λ n. get_or proc n stray) (omega arith)) (omega arith)
          (elim (Bool-cases (is_less p min)) [
            | inl less ↦ rw less (Held-new k p min index here less h)
            | inr other ↦ rw other (Held-kept k p min index (small k inside) here other h)
          ])
      where
        inside : k < length js
        inside = omega arith

        self : p ≡ get_or proc k stray
        self = same 0 ∙ ap (λ n. get_or proc n stray) (omega arith)

        here : Entry now p (job k)
        here = rw (← self) at (Pointwise-get (Entry now) proc js k stray no_job shown inside)

    Held-IsLeast :
        (m : ℤ) (index i : ℕ)
        → Held (length js) m index
        → i < length js
        → Ready i
        → IsLeast (length js) index
    Held-IsLeast m index i (nothing e none) lt w = absurd cc (none i lt)
    Held-IsLeast m index i (held e l) lt w = l

    -- When something waits, the loop's index is that of the first of the shortest.
    find_min_index-IsLeast :
        (i : ℕ) → i < length js → Ready i → IsLeast (length js) (find_min_index proc)
    unfolding find_min_index
    find_min_index-IsLeast i lt w =
        let (m, h) =
          find_from-Held proc 0 (pos int_max) 0 (λ i. ap (λ n. get_or proc n stray) (omega arith))
            (omega (arith, Pointwise-length (Entry now) proc js shown))
            (nothing refl (λ k lt. absurd (omega arith))) in
        Held-IsLeast m (find_min_index proc) i h lt w

-- What the two functions tell of a table behind the arrivals at `now`.
module _ (now : ℕ) (js : List Job) (stray : Process) (proc : List Process)
    (shown : Shows (now + 1) proc js)
    (small : (k : ℕ) → k < length js → (get_or js k no_job).left < int_max) where
  -- Where no process is ready, no job waits.
  pub some_process_is_ready-NoneWaits : some_process_is_ready proc ≡ false → NoneWaits now js
  some_process_is_ready-NoneWaits e = none_ready (now + 1) proc js shown e

  -- In a table that shows jobs behind the arrivals of a time, with less than the largest int left
  -- of each, find_min_index finds the first of the shortest jobs that wait, where
  -- some_process_is_ready says that there is one.
  pub find_min_index-Shortest :
      some_process_is_ready proc ≡ true → Shortest now js (find_min_index proc)
  find_min_index-Shortest e =
      let (i, lt, w) = some_ready (now + 1) proc js shown e in
      let l = find_min_index-IsLeast (now + 1) js stray proc shown small i lt w in
      record { inside = l.inside; waits = l.waits; least = l.least; first = l.first }
