-- ===== src/Os/Triple.antt =====
-- Total correctness of a computation: it returns a value that meets a postcondition.
use os_project.Prelude.{ℕ, ◌≡◌, refl, ◌∙◌}
use os_project.Os.{M, Trace, Outcome, returned, exited_with, overflowed, hung, ◌>>=◌}

pub record Returns {A : Type 0} (m : M A) (tr : Trace) (Post : A → Trace → Type 0) : Type 0 where
  pub value : A
  pub after : Trace
  pub run : m tr ≡ (returned value, after)
  pub post : Post value after

module _ {A B : Type 0} where
  -- The rule of `;`.
  pub bind_rule :
      (m : M A) (f : A → M B) {tr : Trace} {Mid : A → Trace → Type 0} {Post : B → Trace → Type 0}
      → Returns m tr Mid
      → ((a : A) (tr' : Trace) → Mid a tr' → Returns (f a) tr' Post)
      → Returns (m >>= f) tr Post
  bind_rule m f r next =
      let rest = next r.value r.after r.post in
      record { value = rest.value; after = rest.after; run = rw r.run rest.run; post = rest.post }

  -- The rule of `;` behind a computation that was run.
  pub step_rule :
      (m : M A) (f : A → M B) {tr tr' : Trace} {a : A} {Post : B → Trace → Type 0}
      → m tr ≡ (returned a, tr')
      → Returns (f a) tr' Post
      → Returns (m >>= f) tr Post
  step_rule m f e rest = record {
    value = rest.value;
    after = rest.after;
    run = rw e rest.run;
    post = rest.post;
  }

module _ {A : Type 0} where
  -- A computation that was run.
  pub run_rule :
      (m : M A) {tr tr' : Trace} {a : A} {Post : A → Trace → Type 0}
      → m tr ≡ (returned a, tr')
      → Post a tr'
      → Returns m tr Post
  run_rule m {tr' = tr'} {a = a} e p = record { value = a; after = tr'; run = e; post = p }

  pub weaken :
      {m : M A} {tr : Trace} {Post Weaker : A → Trace → Type 0}
      → Returns m tr Post
      → ((a : A) (tr' : Trace) → Post a tr' → Weaker a tr')
      → Returns m tr Weaker
  weaken r w = record {
    value = r.value;
    after = r.after;
    run = r.run;
    post = w r.value r.after r.post;
  }

  pub pure_rule :
      (a : A) (tr : Trace) {Post : A → Trace → Type 0}
      → Post a tr
      → Returns (λ t. (returned a, t)) tr Post
  pure_rule a tr p = record { value = a; after = tr; run = refl; post = p }

-- The process exits with the status `code`, in a trace that meets a postcondition.
pub record Exits {A : Type 0} (m : M A) (tr : Trace) (code : ℕ) (Post : Trace → Type 0)
    : Type 0 where
  pub after : Trace
  pub run : m tr ≡ (exited_with code, after)
  pub post : Post after

module _ {A B : Type 0} where
  pub exit_rule :
      (m : M A) (f : A → M B) {tr : Trace} {code : ℕ} {Mid : A → Trace → Type 0}
      {Post : Trace → Type 0}
      → Returns m tr Mid
      → ((a : A) (tr' : Trace) → Mid a tr' → Exits (f a) tr' code Post)
      → Exits (m >>= f) tr code Post
  exit_rule m f r next =
      let rest = next r.value r.after r.post in
      record { after = rest.after; run = rw r.run rest.run; post = rest.post }

module _ {A : Type 0} (m n : M A) {tr : Trace} (same : m tr ≡ n tr) where
  -- A computation that runs as another one does.
  pub same-Returns : {Post : A → Trace → Type 0} → Returns n tr Post → Returns m tr Post
  same-Returns r = record { value = r.value; after = r.after; run = same ∙ r.run; post = r.post }

  pub same-Exits : {code : ℕ} {Post : Trace → Type 0} → Exits n tr code Post → Exits m tr code Post
  same-Exits r = record { after = r.after; run = same ∙ r.run; post = r.post }

-- What stands behind an exit is not run.
pub Exits-before :
    {A B : Type 0} (m : M A) (f : A → M B) {tr : Trace} {code : ℕ} {Post : Trace → Type 0}
    → Exits m tr code Post
    → Exits (m >>= f) tr code Post
Exits-before m f e = record { after = e.after; run = rw (e.run); post = e.post }

pub weaken_exit :
    {A : Type 0} {m : M A} {tr : Trace} {code : ℕ} {Post Weaker : Trace → Type 0}
    → Exits m tr code Post
    → ((tr' : Trace) → Post tr' → Weaker tr')
    → Exits m tr code Weaker
weaken_exit e w = record { after = e.after; run = e.run; post = w e.after e.post }

-- What holds of every outcome of the rest holds of the outcome of the whole.
pub outcome-after :
    {A B : Type 0} (P : Outcome B → Type 0) (m : M A) (f : A → M B) {tr : Trace}
    {Mid : A → Trace → Type 0}
    → Returns m tr Mid
    → ((a : A) (tr' : Trace) → Mid a tr' → P (f a tr').0)
    → P ((m >>= f) tr).0
outcome-after P m f r next = rw (r.run) (next r.value r.after r.post)

module _ {A : Type 0} where
  abbrev pub IsReturned : Outcome A → Type 0
  IsReturned (returned a) = Unit
  IsReturned (exited_with code) = ⊥
  IsReturned overflowed = ⊥
  IsReturned hung = ⊥

  -- A computation that was seen to return.
  pub ends_rule : (m : M A) (tr : Trace) → IsReturned (m tr).0 → Returns m tr (λ _ _. Unit)
  ends_rule m tr h = go (m tr) refl h
    where
      go : (r : Outcome A × Trace) → m tr ≡ r → IsReturned r.0 → Returns m tr (λ _ _. Unit)
      go (returned a, tr') e h = run_rule m e tt
      go (exited_with code, tr') e h = absurd h
      go (overflowed, tr') e h = absurd h
      go (hung, tr') e h = absurd h

-- An exit behind a computation that was run.
pub step_exit :
    {A B : Type 0} (m : M A) (f : A → M B) {tr tr' : Trace} {a : A} {code : ℕ}
    {Post : Trace → Type 0}
    → m tr ≡ (returned a, tr')
    → Exits (f a) tr' code Post
    → Exits (m >>= f) tr code Post
step_exit m f e rest = record { after = rest.after; run = rw e rest.run; post = rest.post }
