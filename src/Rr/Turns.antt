-- ===== src/Rr/Turns.antt =====
-- The specification of RR: turns of `interval` units in a ring of the jobs that wait.
use os_project.Prelude.{
  ℕ, ◌+◌, ◌-◌, ◌%◌, ◌<◌, ◌≡◌, ◌==◌, Option, none, some, List, [], ◌∷◌, Bool, true, false, get_or,
  set, length,
}
use os_project.Process.Jobs.{Job, no_job}
use os_project.Process.Work.{done_count, spend}
use os_project.Rr.{interval}
use os_project.Process.Waiting.{NoneWaits}
use os_project.Rr.Ring.{FirstWaiting, NextInRing}

-- The turn of who runs since `last` is over at `now`.
abbrev pub turn_over : ℕ → ℕ → Bool
turn_over now last = (now - last) % interval == 0

-- The jobs after a unit of time of job `i`.
abbrev pub use_unit : List Job → ℕ → List Job
use_unit js i = set js i (spend (get_or js i no_job))

-- Who runs at `now`, where `running` ran before and its turn began at `last`, and when the turn of
-- the one who runs began.
pub data Choice (now : ℕ) (js : List Job) : Option ℕ → ℕ → ℕ → ℕ → Type 0 where
  begin : {last i : ℕ} → FirstWaiting now js i → Choice now js none last i now
  keep : {last i : ℕ} → turn_over now last ≡ false → Choice now js (some i) last i last
  again :
      {last i k : ℕ}
      → turn_over now last ≡ true
      → 0 < (get_or js i no_job).left
      → NextInRing now js i k
      → k ≡ i
      → Choice now js (some i) last k last
  pass_on :
      {last i k : ℕ}
      → turn_over now last ≡ true
      → 0 < (get_or js i no_job).left
      → NextInRing now js i k
      → ¬ (k ≡ i)
      → Choice now js (some i) last k now

-- `Turns now js running last out`: from `now` on, where `running` runs since `last`, the jobs `js`
-- end in the order and at the times of `out`, which names each by its index.
pub data Turns : ℕ → List Job → Option ℕ → ℕ → List (ℕ × ℕ) → Type 0 where
  all_over :
      {now : ℕ} {js : List Job} {last : ℕ} → done_count js ≡ length js → Turns now js none last []
  ends :
      {now : ℕ} {js : List Job} {i last : ℕ} {out : List (ℕ × ℕ)}
      → i < length js
      → (get_or js i no_job).left ≡ 0
      → Turns now js none last out
      → Turns now js (some i) last ((i, now) ∷ out)
  idle :
      {now : ℕ} {js : List Job} {last : ℕ} {out : List (ℕ × ℕ)}
      → done_count js < length js
      → NoneWaits now js
      → Turns (now + 1) js none last out
      → Turns now js none last out
  runs :
      {now : ℕ} {js : List Job} {running : Option ℕ} {last : ℕ} {out : List (ℕ × ℕ)} (i last' : ℕ)
      → Choice now js running last i last'
      → i < length js
      → 0 < (get_or js i no_job).left
      → Turns (now + 1) (use_unit js i) (some i) last' out
      → Turns now js running last out
