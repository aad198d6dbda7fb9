-- ===== src/Process/First.antt =====
-- The first arrival in a table.
use mathlib.Core.Logic.Or
use mathlib.Core.List.Perm
use mathlib.Core.List.{mem-map_of_mem, Mem, not-mem-nil, mem-cons, mem-cons_self, mem-cons_of_mem}
use os_project.Prelude.{
  map, ℕ, suc, ◌+◌, ◌<◌, ◌≡◌, refl, ap, ◌∙◌, sym, List, [], ◌∷◌, All, Bool-cases, inl, inr, true,
  false, ℤ, pos, negsuc, eq_ℤ, ltb_ℤ, arith,
}
use os_project.Process.{Process, unstarted}
use os_project.Process.Sorting.{Qsort, IsQsort}
use os_project.Os.{Trace, M, pure, returned, for_each, ◌>>=◌}
use os_project.Os.Forks.{forks, units}
use os_project.Os.Waits.{spend, forks-spend, units-spend}
use os_project.Os.Triple.{Exits, Exits-before, weaken_exit, step_exit}

-- No entry of the table arrives before the time `first`.
abbrev pub NoneBefore : ℕ → List Process → Type 0
NoneBefore first ps = (p : Process) → Mem p ps → ltb_ℤ p.ready (pos first) ≡ false

pub All-NoneBefore :
    (first : ℕ) (ps : List Process)
    → All (λ p. ltb_ℤ p.ready (pos first) ≡ false) ps
    → NoneBefore first ps
All-NoneBefore first [] h p m = absurd (not-mem-nil m)
All-NoneBefore first (q ∷ ps) h p m =
    Or.elim (hlevel) (mem-cons.0 m) (λ e. rw e h.0) (All-NoneBefore first ps h.1 p)

not_yet : (z : ℤ) (t first : ℕ) → ltb_ℤ z (pos first) ≡ false → t < first → eq_ℤ z (pos t) ≡ false
not_yet (pos a) t first h lt = ground arith
not_yet (negsuc a) t first h lt = refl

pub NoneBefore-All :
    (t first : ℕ) (ps : List Process)
    → t < first
    → NoneBefore first ps
    → All (λ p. eq_ℤ p.ready (pos t) ≡ false) ps
NoneBefore-All t first [] lt h = tt
NoneBefore-All t first (p ∷ ps) lt h = (
  not_yet p.ready t first (h p mem-cons_self) lt,
  NoneBefore-All t first ps lt (λ q m. h q (mem-cons_of_mem p m)),
)

-- An entry of the table that arrives at the time `t`, with what came of it.
pub record Arrived (ps : List Process) (t : ℕ) (Post : Process → Trace → Type 0) (tr' : Trace)
    : Type 0 where
  pub entry : Process
  pub listed : Mem entry ps
  pub arrives : eq_ℤ entry.ready (pos t) ≡ true
  pub post : Post entry tr'

clash : true ≡ false → ⊥
clash e = cc

module _ (arrive : Process → M Process) (t : ℕ)
    (passes : (p : Process) (tr : Trace)
      → eq_ℤ p.ready (pos t) ≡ false
      → arrive p tr ≡ (returned p, tr)) where
  -- A loop over a table of which no entry arrives.
  pub for_each_passes :
      (ps : List Process) (tr : Trace)
      → All (λ p. eq_ℤ p.ready (pos t) ≡ false) ps
      → for_each arrive ps tr ≡ (returned ps, tr)
  for_each_passes [] tr h = refl
  for_each_passes (p ∷ ps) tr h = rw (passes p tr h.0, for_each_passes ps tr h.1) refl

  module _ (code : ℕ) (Post : Process → Trace → Trace → Type 0)
      (ends : (p : Process) (tr : Trace)
        → eq_ℤ p.ready (pos t) ≡ true
        → Exits (arrive p) tr code (Post p tr)) where
    further :
        (p : Process) (ps : List Process) (tr tr' : Trace)
        → Arrived ps t (λ q. Post q tr) tr'
        → Arrived (p ∷ ps) t (λ q. Post q tr) tr'
    further p ps tr tr' a = record {
      entry = a.entry;
      listed = mem-cons_of_mem p a.listed;
      arrives = a.arrives;
      post = a.post;
    }

    -- A loop over a table with an entry that arrives, where an arrival exits.
    pub for_each_exits :
        (q : Process) (ps : List Process) (tr : Trace)
        → eq_ℤ q.ready (pos t) ≡ true
        → Mem q ps
        → Exits (for_each arrive ps) tr code (Arrived ps t λ p. Post p tr)
    for_each_exits q [] tr now m = absurd (not-mem-nil m)
    for_each_exits q (p ∷ ps) tr now m = elim (Bool-cases (eq_ℤ p.ready (pos t))) [
      | inl arrives ↦ Exits-before (arrive p) rest (
          weaken_exit (ends p tr arrives) (λ tr' post. record {
            entry = p;
            listed = mem-cons_self;
            arrives = arrives;
            post = post;
          }))
      | inr later ↦ step_exit (arrive p) rest (passes p tr later) (
          Exits-before (for_each arrive ps) (λ ps'. pure (p ∷ ps'))
            (weaken_exit (for_each_exits q ps tr now (behind later)) (further p ps tr)))
    ]
      where
        rest : Process → M (List Process)
        rest p' = for_each arrive ps >>= λ ps'. pure (p' ∷ ps')

        behind : eq_ℤ p.ready (pos t) ≡ false → Mem q ps
        behind later =
            Or.elim (hlevel) (mem-cons.0 m)
              (λ e. absurd (clash (sym now ∙ ap (λ r. eq_ℤ r.ready (pos t)) e ∙ later))) (λ b. b)

-- What comes of a first arrival, after `first` units of time: one process was asked for, and `spent`
-- more units of time have passed.
abbrev pub AtFirst : ℕ → ℕ → Trace → Trace → Type 0
AtFirst first spent tr tr' = (forks tr' ≡ suc (forks tr)) × (units tr' ≡ spent + (first + units tr))

pub AtFirst-spend :
    (k first spent : ℕ) (tr tr' : Trace)
    → AtFirst 0 spent (spend k first tr) tr'
    → AtFirst first spent tr tr'
AtFirst-spend k first spent tr tr' h =
    let (made, passed) = h in
    let before : units (spend k first tr) ≡ first + units tr = units-spend k first tr in
    (made ∙ ap suc (forks-spend k first tr), omega arith)

-- The first arrival of a table is that of the sorted one, with no process made yet.
pub unstarted-NoneBefore :
    (first : ℕ) (ps : List Process) → NoneBefore first ps → NoneBefore first (map unstarted ps)
unstarted-NoneBefore first [] h p m = absurd (not-mem-nil m)
unstarted-NoneBefore first (q ∷ ps) h p m =
    Or.elim (hlevel) (mem-cons.0 m) (λ e. ap (λ r. ltb_ℤ r.ready (pos first)) e ∙ h q mem-cons_self)
      (unstarted-NoneBefore first ps (λ r n. h r (mem-cons_of_mem q n)) p)

pub qsort-NoneBefore :
    {qsort : Qsort} (q : IsQsort qsort) (cmp : Process → Process → ℤ) (first : ℕ)
    (ps : List Process)
    → NoneBefore first ps
    → NoneBefore first (map unstarted (qsort cmp ps))
qsort-NoneBefore {qsort} q cmp first ps h =
    unstarted-NoneBefore first (qsort cmp ps) (λ p m. h p (Perm.subset (q.permutes cmp ps) p m))

pub qsort_mem :
    {qsort : Qsort} (q : IsQsort qsort) (cmp : Process → Process → ℤ) (p : Process)
    (ps : List Process)
    → Mem p ps
    → Mem (unstarted p) (map unstarted (qsort cmp ps))
qsort_mem q cmp p ps m = mem-map_of_mem unstarted (Perm.subset (Perm.symm (q.permutes cmp ps)) p m)
