-- ===== src/Process/Jobs.antt =====
-- The view of a table as jobs that arrive and have units of time left. An entry has a pid other
-- than -1 once its time has come.
use os_project.Prelude.{
  ◌+◌, ℕ, zero, suc, ◌<◌, ◌≡◌, refl, ap, ◌∙◌, List, [], ◌∷◌, ◌++◌, Bool, not, ◌&&◌, ltb, ◌==◌, pos,
  minus_one, eq_ℤ, get_or, set, length, arith,
}
use os_project.Process.{Name, Process, is_idle}
use os_project.Os.{Trace, M, for_each, ◌>>=◌, pure}
use os_project.Os.Triple.{Returns, bind_rule, pure_rule, weaken}

pub record Job : Type 0 where
  pub name : Name
  pub arrival : ℕ
  pub left : ℕ

-- What lies outside of a list of jobs.
abbrev pub no_job : Job
no_job = record { name = []; arrival = 0; left = 0 }

-- The entry `p` shows the job `j`, and the arrivals before the time `now` were carried out.
pub record Entry (now : ℕ) (p : Process) (j : Job) : Type 0 where
  pub name_shown : p.name ≡ j.name
  pub ready_shown : p.ready ≡ pos j.arrival
  pub exec_shown : p.exec ≡ pos j.left
  pub pid_shown : eq_ℤ p.pid minus_one ≡ not (ltb j.arrival now)

-- Two lists of one length, related entry by entry.
abbrev pub Pointwise : {A B : Type 0} → (A → B → Type 0) → List A → List B → Type 0
Pointwise R [] [] = Unit
Pointwise R (x ∷ xs) (y ∷ ys) = R x y × Pointwise R xs ys
Pointwise R _ _ = ⊥

abbrev pub Shows : ℕ → List Process → List Job → Type 0
Shows now = Pointwise (Entry now)

module _ {A B : Type 0} (R : A → B → Type 0) where
  pub Pointwise-length : (xs : List A) (ys : List B) → Pointwise R xs ys → length xs ≡ length ys
  Pointwise-length [] [] h = refl
  Pointwise-length [] (y ∷ ys) h = absurd h
  Pointwise-length (x ∷ xs) [] h = absurd h
  Pointwise-length (x ∷ xs) (y ∷ ys) h = ap suc (Pointwise-length xs ys h.1)

  pub Pointwise-get :
      (xs : List A) (ys : List B) (i : ℕ) (d : A) (e : B)
      → Pointwise R xs ys
      → i < length ys
      → R (get_or xs i d) (get_or ys i e)
  Pointwise-get [] [] i d e h lt = elim lt [ ]
  Pointwise-get [] (y ∷ ys) i d e h lt = absurd h
  Pointwise-get (x ∷ xs) [] i d e h lt = absurd h
  Pointwise-get (x ∷ xs) (y ∷ ys) zero d e h lt = h.0
  Pointwise-get (x ∷ xs) (y ∷ ys) (suc i) d e h lt = Pointwise-get xs ys i d e h.1 (omega arith)

  pub Pointwise-set :
      (xs : List A) (ys : List B) (i : ℕ) (x' : A) (y' : B)
      → Pointwise R xs ys
      → R x' y'
      → Pointwise R (set xs i x') (set ys i y')
  Pointwise-set [] [] i x' y' h r = tt
  Pointwise-set [] (y ∷ ys) i x' y' h r = absurd h
  Pointwise-set (x ∷ xs) [] i x' y' h r = absurd h
  Pointwise-set (x ∷ xs) (y ∷ ys) zero x' y' h r = (r, h.1)
  Pointwise-set (x ∷ xs) (y ∷ ys) (suc i) x' y' h r = (h.0, Pointwise-set xs ys i x' y' h.1 r)

  pub Pointwise-map :
      (S : A → B → Type 0)
      → ((x : A) (y : B) → R x y → S x y)
      → (xs : List A) (ys : List B) → Pointwise R xs ys
      → Pointwise S xs ys
  Pointwise-map S f [] [] h = tt
  Pointwise-map S f [] (y ∷ ys) h = absurd h
  Pointwise-map S f (x ∷ xs) [] h = absurd h
  Pointwise-map S f (x ∷ xs) (y ∷ ys) h = (f x y h.0, Pointwise-map S f xs ys h.1)

  pub Pointwise-append_one :
      (xs : List A) (ys : List B) (x : A) (y : B)
      → Pointwise R xs ys
      → R x y
      → Pointwise R (xs ++ x ∷ []) (ys ++ y ∷ [])
  Pointwise-append_one [] [] x y h r = (r, tt)
  Pointwise-append_one [] (y' ∷ ys) x y h r = absurd h
  Pointwise-append_one (x' ∷ xs) [] x y h r = absurd h
  Pointwise-append_one (x' ∷ xs) (y' ∷ ys) x y h r = (h.0, Pointwise-append_one xs ys x y h.1 r)

-- The job has arrived before `now` and is not done.
abbrev pub can_run : ℕ → Job → Bool
can_run now j = ltb j.arrival now && not (j.left == 0)

pub Entry-is_idle :
    {now : ℕ} {p : Process} {j : Job} → Entry now p j → is_idle p ≡ not (can_run now j)
Entry-is_idle e = ground arith

pub Shows-length :
    (now : ℕ) (ps : List Process) (js : List Job) → Shows now ps js → length ps ≡ length js
Shows-length now = Pointwise-length (Entry now)

pub Shows-get :
    (now : ℕ) (ps : List Process) (js : List Job) (i : ℕ) (stray : Process) (none : Job)
    → Shows now ps js
    → i < length js
    → Entry now (get_or ps i stray) (get_or js i none)
Shows-get now = Pointwise-get (Entry now)

pub Shows-set :
    (now : ℕ) (ps : List Process) (js : List Job) (i : ℕ) (p' : Process) (j' : Job)
    → Shows now ps js
    → Entry now p' j'
    → Shows now (set ps i p') (set js i j')
Shows-set now = Pointwise-set (Entry now)

-- A loop over a table, whose body takes an entry that meets `Before` to one that meets `After`,
-- changes it by `Change`, and keeps `Good` of the trace.
module _ (Before After : Process → Job → Type 0) (Change : Process → Process → Type 0)
    (Good : Trace → Type 0) (body : Process → M Process)
    (visit : (p : Process) (j : Job) (tr : Trace)
      → Before p j
      → Good tr
      → Returns (body p) tr (λ p' tr'. After p' j × Change p p' × Good tr')) where
  pub for_each-Pointwise :
      (ps : List Process) (js : List Job) (tr : Trace)
      → Pointwise Before ps js
      → Good tr
      → Returns
          (for_each body ps)
          tr
          (λ ps' tr'. Pointwise After ps' js × Pointwise Change ps ps' × Good tr')
  for_each-Pointwise [] [] tr h g = pure_rule [] tr (tt, tt, g)
  for_each-Pointwise [] (j ∷ js) tr h g = absurd h
  for_each-Pointwise (p ∷ ps) [] tr h g = absurd h
  for_each-Pointwise (p ∷ ps) (j ∷ js) tr h g =
      bind_rule (body p) (λ p'. for_each body ps >>= λ ps'. pure (p' ∷ ps')) (visit p j tr h.0 g)
        λ p' tr' (a, c, g').
          bind_rule (for_each body ps) (λ ps'. pure (p' ∷ ps'))
            (for_each-Pointwise ps js tr' h.1 g')
            λ ps' tr'' (behind, cs, g''). pure_rule (p' ∷ ps') tr'' ((a, behind), (c, cs), g'')

-- A loop that carries out the arrivals of one unit of time, and leaves a view of the trace alone.
module _ {V : Type 0} (view : Trace → V) (body : Process → M Process) (now : ℕ)
    (visit : (p : Process) (j : Job) (tr : Trace)
      → Entry now p j
      → Returns (body p) tr (λ p' tr'. Entry (now + 1) p' j × (view tr' ≡ view tr))) where
  pub for_each-Shows :
      (ps : List Process) (js : List Job) (tr : Trace)
      → Shows now ps js
      → Returns (for_each body ps) tr (λ ps' tr'. Shows (now + 1) ps' js × (view tr' ≡ view tr))
  for_each-Shows ps js tr h =
      weaken
        (for_each-Pointwise (Entry now) (Entry (now + 1)) (λ p p'. Unit) (λ t. view t ≡ view tr)
          body (λ p j t e g. weaken (visit p j t e) (λ p' t' (e', q). (e', tt, q ∙ g))) ps js tr h
          refl)
        (λ ps' tr' (shown, _, q). (shown, q))
