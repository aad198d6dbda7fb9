-- ===== src/Process/Awake.antt =====
-- The entries that have been started, and the one that runs, through the steps of the schedulers that
-- keep one process awake: FIFO, SJF and RR.
use os_project.Prelude.{
  ℕ, zero, suc, ◌+◌, ◌<◌, ◌≡◌, ◌⊎◌, inl, inr, refl, sym, ap, ◌∙◌, Option, none, some, List, [], ◌∷◌,
  true, false, ℤ, pos, negsuc, minus_one, ltb_ℤ, get_or, set, get_or-set_same, length-set, length,
  map, arith,
}
use os_project.Process.{Process, proc_at, is_idle, unstarted}
use os_project.Process.Select.{FirstLeast}
use os_project.Process.Jobs.{Pointwise, Pointwise-get, Pointwise-length}
use os_project.Os.{Trace, Policy}
use os_project.Os.Awake.{Within, Owner}

-- A process that has been started was ready before `now`.
abbrev pub IsKnown : ℕ → Process → Type 0
IsKnown now p = (p.pid ≡ minus_one) ⊎ (ltb_ℤ p.ready (pos now) ≡ true)

abbrev pub AllKnown : ℕ → Process → List Process → Type 0
AllKnown now stray ps = (k : ℕ) → k < length ps → IsKnown now (get_or ps k stray)

-- The running process is one that has been started.
abbrev pub IsStarted : Process → List Process → Option ℕ → Type 0
IsStarted stray ps none = Unit
IsStarted stray ps (some i) = i < length ps → ¬ ((get_or ps i stray).pid ≡ minus_one)

-- The pid of the running process.
abbrev pub owner : Process → List Process → Option ℕ → Option ℤ
owner stray ps none = none
owner stray ps (some i) = some (get_or ps i stray).pid

busy_pid : (p : Process) → is_idle p ≡ false → ¬ (p.pid ≡ minus_one)
busy_pid p busy not_yet = let wrong = rw not_yet at busy in cc

-- The selection loop finds one that has been started.
pub FirstLeast-IsStarted :
    (key : Process → ℤ) (stray : Process) (ps : List Process) (found : Option ℕ)
    → FirstLeast key stray ps (length ps) found
    → IsStarted stray ps found
FirstLeast-IsStarted key stray ps none h = tt
FirstLeast-IsStarted key stray ps (some k) h = λ lt. busy_pid (get_or ps k stray) h.busy

-- Who is awake between the two calls of a switch, and behind them.
pub only_next :
    (stray : Process) (ps : List Process) (running : Option ℕ) (new a : ℤ)
    → ((a ≡ new) ⊎ Owner (owner stray ps running) a) × ¬ (a ≡ (proc_at stray ps running).pid)
    → a ≡ new
only_next stray ps running new a (inl here, differs) = here
only_next stray ps none new a (inr nobody, differs) = absurd nobody
only_next stray ps (some i) new a (inr running, differs) = absurd (differs running)

-- Nobody is awake when the running process has been waited for.
pub nobody_left :
    (stray : Process) (ps : List Process) (running : Option ℕ) (a : ℤ)
    → Owner (owner stray ps running) a × ¬ (a ≡ (proc_at stray ps running).pid)
    → ⊥
nobody_left stray ps none a (awake, differs) = awake
nobody_left stray ps (some i) a (awake, differs) = differs awake

module _ (me : ℤ) (high : Policy) (stray : Process) where
  -- Nobody but the running process is awake.
  pub record OnlyRunning (now : ℕ) (ps : List Process) (running : Option ℕ) (tr : Trace)
      : Type 0 where
    pub known : AllKnown now stray ps
    pub started : IsStarted stray ps running
    pub within : Within me high (Owner (owner stray ps running)) tr

-- An entry after the arrivals at `now`.
pub record Arrives (now : ℕ) (p p' : Process) : Type 0 where
  pub same_ready : p'.ready ≡ p.ready
  pub same_pid : (p'.pid ≡ p.pid) ⊎ (p.ready ≡ pos now)

ready_not_now : (now : ℕ) (r : ℤ) → ltb_ℤ r (pos now) ≡ true → ¬ (r ≡ pos now)
ready_not_now now (pos r) before same = let e : r ≡ now = cc in absurd (ground (arith, e, before))
ready_not_now now (negsuc r) before same = cc

Arrives-pid :
    (now : ℕ) (p p' : Process)
    → Arrives now p p'
    → IsKnown now p
    → ¬ (p.pid ≡ minus_one)
    → p'.pid ≡ p.pid
Arrives-pid now p p' a known started = elim a.same_pid [
  | inl same ↦ same
  | inr ready ↦ elim known [
    | inl not_yet ↦ absurd (started not_yet)
    | inr before ↦ absurd (ready_not_now now p.ready before ready)
  ]
]

known-later : (now : ℕ) (r : ℤ) → ltb_ℤ r (pos now) ≡ true → ltb_ℤ r (pos (now + 1)) ≡ true
known-later now (pos r) h = ground (arith, h)
known-later now (negsuc r) h = refl

Arrives-IsKnown :
    (now : ℕ) (p p' : Process) → Arrives now p p' → IsKnown now p → IsKnown (now + 1) p'
Arrives-IsKnown now p p' a known = elim a.same_pid [
  | inl same ↦ elim known [
    | inl not_yet ↦ inl (same ∙ not_yet)
    | inr before ↦ inr (rw (a.same_ready) (known-later now p.ready before))
  ]
  | inr ready ↦ inr (rw (a.same_ready, ready) (ground arith))
]

unstarted_pid :
    (stray : Process) (ps : List Process) (k : ℕ)
    → k < length (map unstarted ps)
    → (get_or (map unstarted ps) k stray).pid ≡ minus_one
unstarted_pid stray [] k lt = elim lt [ ]
unstarted_pid stray (p ∷ ps) zero lt = refl
unstarted_pid stray (p ∷ ps) (suc k) lt = unstarted_pid stray ps k (omega arith)

module _ (now : ℕ) (stray : Process) where
  arrived_pid :
      (ps ps' : List Process) (i : ℕ)
      → Pointwise (Arrives now) ps ps'
      → (i < length ps → IsKnown now (get_or ps i stray))
      → (i < length ps → ¬ ((get_or ps i stray).pid ≡ minus_one))
      → (get_or ps' i stray).pid ≡ (get_or ps i stray).pid
  arrived_pid [] [] i r known started = refl
  arrived_pid [] (p' ∷ ps') i r known started = absurd r
  arrived_pid (p ∷ ps) [] i r known started = absurd r
  arrived_pid (p ∷ ps) (p' ∷ ps') zero r known started =
      Arrives-pid now p p' r.0 (known (omega arith)) (started (omega arith))
  arrived_pid (p ∷ ps) (p' ∷ ps') (suc i) r known started =
      arrived_pid ps ps' i r.1 (λ lt. known (omega arith)) (λ lt. started (omega arith))

  arrived-AllKnown :
      (ps ps' : List Process)
      → Pointwise (Arrives now) ps ps'
      → AllKnown now stray ps
      → AllKnown (now + 1) stray ps'
  arrived-AllKnown ps ps' r known k lt =
      Arrives-IsKnown now (get_or ps k stray) (get_or ps' k stray)
        (Pointwise-get (Arrives now) ps ps' k stray stray r lt)
        (known k (omega (arith, Pointwise-length (Arrives now) ps ps' r)))

  arrived-IsStarted :
      (ps ps' : List Process) (running : Option ℕ)
      → Pointwise (Arrives now) ps ps'
      → AllKnown now stray ps
      → IsStarted stray ps running
      → IsStarted stray ps' running × (owner stray ps' running ≡ owner stray ps running)
  arrived-IsStarted ps ps' none r known started = (tt, refl)
  arrived-IsStarted ps ps' (some i) r known started =
      let same = arrived_pid ps ps' i r (known i) started in
      (
        λ lt not_yet.
            started (omega (arith, Pointwise-length (Arrives now) ps ps' r)) (sym same ∙ not_yet),
        ap (λ pid. some pid) same,
      )

-- An entry whose `exec` alone was changed.
module _ (stray : Process) (ps : List Process) (i : ℕ) (left : ℤ) where
  abbrev pub spent : List Process
  spent = set ps i (record (get_or ps i stray) { exec = left })

  spent_pid : (k : ℕ) → (get_or spent k stray).pid ≡ (get_or ps k stray).pid
  spent_pid k =
      get_or-set_same (λ (p : Process). p.pid) ps i k (record (get_or ps i stray) { exec = left })
        stray refl

  spent_ready : (k : ℕ) → (get_or spent k stray).ready ≡ (get_or ps k stray).ready
  spent_ready k =
      get_or-set_same (λ (p : Process). p.ready) ps i k (record (get_or ps i stray) { exec = left })
        stray refl

  spent-owner : (running : Option ℕ) → owner stray spent running ≡ owner stray ps running
  spent-owner none = refl
  spent-owner (some k) = ap (λ pid. some pid) (spent_pid k)

  spent-IsStarted :
      (running : Option ℕ) → IsStarted stray ps running → IsStarted stray spent running
  spent-IsStarted none started = tt
  spent-IsStarted (some k) started = λ lt not_yet.
      started (omega (arith, length-set ps i (record (get_or ps i stray) { exec = left })))
        (sym (spent_pid k) ∙ not_yet)

module _ (me : ℤ) (high : Policy) (stray : Process) where
  -- Before the first round.
  pub OnlyRunning-start :
      (ps : List Process) (tr : Trace)
      → Within me high (Owner none) tr
      → OnlyRunning me high stray 0 (map unstarted ps) none tr
  OnlyRunning-start ps tr within = record {
    known = λ k lt. inl (unstarted_pid stray ps k lt);
    started = tt;
    within = within;
  }

  pub OnlyRunning-arrivals :
      (now : ℕ) (ps ps' : List Process) (running : Option ℕ) (tr tr' : Trace)
      → OnlyRunning me high stray now ps running tr
      → Pointwise (Arrives now) ps ps'
      → Within me high (Owner (owner stray ps running)) tr'
      → OnlyRunning me high stray (now + 1) ps' running tr'
  OnlyRunning-arrivals now ps ps' running tr tr' o r within =
      let (started, same) = arrived-IsStarted now stray ps ps' running r o.known o.started in
      record {
        known = arrived-AllKnown now stray ps ps' r o.known;
        started = started;
        within = rw same within;
      }

  -- Another process runs, which has been started.
  pub OnlyRunning-switch :
      (now : ℕ) (ps : List Process) (running next : Option ℕ) (tr tr' : Trace)
      → OnlyRunning me high stray now ps running tr
      → IsStarted stray ps next
      → Within me high (Owner (owner stray ps next)) tr'
      → OnlyRunning me high stray now ps next tr'
  OnlyRunning-switch now ps running next tr tr' o started within = record {
    known = o.known;
    started = started;
    within = within;
  }

  pub OnlyRunning-spent :
      (now : ℕ) (ps : List Process) (running : Option ℕ) (tr : Trace) (i : ℕ) (left : ℤ)
      → OnlyRunning me high stray now ps running tr
      → OnlyRunning me high stray now (spent stray ps i left) running tr
  OnlyRunning-spent now ps running tr i left o = record {
    known = λ k lt.
        rw (spent_pid stray ps i left k, spent_ready stray ps i left k)
          (o.known k (omega (arith, length-set ps i (record (get_or ps i stray) { exec = left }))));
    started = spent-IsStarted stray ps i left running o.started;
    within = rw (spent-owner stray ps i left running) o.within;
  }
