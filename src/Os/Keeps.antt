-- ===== src/Os/Keeps.antt =====
-- Partial correctness: what holds of the trace whatever the kernel answers, and of the value where a
-- computation returns.
use os_project.Prelude.{
  ℕ, zero, suc, ◌+◌, Option, none, List, [], ◌∷◌, Bool-cases, inl, inr, ltb, Bool, true, false,
  if◌then◌else◌, ◌≡◌, refl, ℤ, pos, negsuc,
}
use os_project.Process.Jobs.{Pointwise}
use os_project.Os.{
  M, Trace, Outcome, returned, exited_with, overflowed, hung, and_then, pure, ◌>>=◌, repeat,
  for_each, increment, decrement, checked, int_max,
}
use os_project.Os.Loop.{Round, again, break, forever, resume}

-- The postcondition holds where there is a value.
abbrev pub Meets : {A : Type 0} → Outcome A → Trace → (A → Trace → Type 0) → Type 0
Meets (returned a) tr Post = Post a tr
Meets _ tr Post = Unit

module _ (Safe : Trace → Type 0) where
  pub record Keeps {A : Type 0} (m : M A) (tr : Trace) (Post : A → Trace → Type 0) : Type 0 where
    pub safe : Safe (m tr).1
    pub meets : Meets (m tr).0 (m tr).1 Post

  module _ {A : Type 0} {Post : A → Trace → Type 0} where
    pub pure_keeps : (a : A) (tr : Trace) → Safe tr → Post a tr → Keeps (pure a) tr Post
    pure_keeps a tr s p = record { safe = s; meets = p }

    -- A computation that was run.
    pub run_keeps :
        (m : M A) (tr : Trace) → Safe (m tr).1 → Meets (m tr).0 (m tr).1 Post → Keeps m tr Post
    run_keeps m tr s p = record { safe = s; meets = p }

    pub weaken_keeps :
        {Weaker : A → Trace → Type 0} (m : M A) (tr : Trace)
        → Keeps m tr Post
        → ((a : A) (tr' : Trace) → Post a tr' → Weaker a tr')
        → Keeps m tr Weaker
    weaken_keeps {Weaker} m tr k w = record {
      safe = k.safe;
      meets = through (m tr).0 (m tr).1 k.meets;
    }
      where
        through : (o : Outcome A) (tr' : Trace) → Meets o tr' Post → Meets o tr' Weaker
        through (returned a) tr' p = w a tr' p
        through (exited_with code) tr' p = tt
        through overflowed tr' p = tt
        through hung tr' p = tt

  module _ {A B : Type 0} {Mid : A → Trace → Type 0} {Post : B → Trace → Type 0} where
    and_then_keeps :
        (f : A → M B) (o : Outcome A) (tr : Trace)
        → Safe tr
        → Meets o tr Mid
        → ((a : A) (tr' : Trace) → Safe tr' → Mid a tr' → Keeps (f a) tr' Post)
        → Keeps (λ t. and_then o f t) tr Post
    and_then_keeps f (returned a) tr s p next = record {
      safe = (next a tr s p).safe;
      meets = (next a tr s p).meets;
    }
    and_then_keeps f (exited_with code) tr s p next = record { safe = s; meets = tt }
    and_then_keeps f overflowed tr s p next = record { safe = s; meets = tt }
    and_then_keeps f hung tr s p next = record { safe = s; meets = tt }

    -- The rule of `;`.
    pub bind_keeps :
        (m : M A) (f : A → M B) (tr : Trace)
        → Keeps m tr Mid
        → ((a : A) (tr' : Trace) → Safe tr' → Mid a tr' → Keeps (f a) tr' Post)
        → Keeps (m >>= f) tr Post
    bind_keeps m f tr k next =
        let rest = and_then_keeps f (m tr).0 (m tr).1 k.safe k.meets next in
        record { safe = rest.safe; meets = rest.meets }

  -- The rule of `;` behind a computation that was run.
  pub step_keeps :
      {A B : Type 0} {Post : B → Trace → Type 0} (m : M A) (f : A → M B) {tr tr' : Trace} {a : A}
      → m tr ≡ (returned a, tr')
      → Keeps (f a) tr' Post
      → Keeps (m >>= f) tr Post
  step_keeps m f e k = record { safe = rw e (k.safe); meets = rw e (k.meets) }

  pub if_keeps :
      {A : Type 0} {Post : A → Trace → Type 0} (b : Bool) (m n : M A) (tr : Trace)
      → (b ≡ true → Keeps m tr Post)
      → (b ≡ false → Keeps n tr Post)
      → Keeps (if b then m else n) tr Post
  if_keeps true m n tr h k = h refl
  if_keeps false m n tr h k = k refl

  pub increment_keeps :
      {Post : ℕ → Trace → Type 0} (n : ℕ) (tr : Trace)
      → Safe tr
      → Post (n + 1) tr
      → Keeps (increment n) tr Post
  increment_keeps n tr s p = elim (Bool-cases (ltb n int_max)) [
    | inl before ↦ record { safe = rw before s; meets = rw before p }
    | inr late ↦ record { safe = rw late s; meets = rw late tt }
  ]

  pub decrement_keeps :
      {Post : ℤ → Trace → Type 0} (n : ℤ) (tr : Trace)
      → Safe tr
      → ((left : ℤ) → Post left tr)
      → Keeps (decrement n) tr Post
  decrement_keeps (pos zero) tr s p = record { safe = s; meets = p (negsuc 0) }
  decrement_keeps (pos (suc n)) tr s p = record { safe = s; meets = p (pos n) }
  decrement_keeps (negsuc n) tr s p = elim (Bool-cases (ltb n int_max)) [
    | inl before ↦ record { safe = rw before s; meets = rw before (p (negsuc (n + 1))) }
    | inr late ↦ record { safe = rw late s; meets = rw late tt }
  ]

  pub checked_keeps :
      {T : Trace → Type 0} (n : ℤ) (tr : Trace)
      → Safe tr
      → T tr
      → Keeps (checked n) tr (λ _ tr'. T tr')
  checked_keeps (pos n) tr s t = elim (Bool-cases (ltb int_max n)) [
    | inl over ↦ record { safe = rw over s; meets = rw over tt }
    | inr fits ↦ record { safe = rw fits s; meets = rw fits t }
  ]
  checked_keeps (negsuc n) tr s t = elim (Bool-cases (ltb int_max n)) [
    | inl over ↦ record { safe = rw over s; meets = rw over tt }
    | inr fits ↦ record { safe = rw fits s; meets = rw fits t }
  ]

  -- An invariant of the trace through a loop whose body only acts.
  pub repeat_keeps :
      (T : Trace → Type 0) (m : M Unit)
      → ((tr : Trace) → Safe tr → T tr → Keeps m tr (λ _ tr'. T tr'))
      → (n : ℕ) (tr : Trace) → Safe tr
      → T tr
      → Keeps (repeat n m) tr (λ _ tr'. T tr')
  repeat_keeps T m step zero tr s t = pure_keeps tt tr s t
  repeat_keeps T m step (suc n) tr s t =
      bind_keeps m (λ _. repeat n m) tr (step tr s t)
        λ _ tr' s' t'. repeat_keeps T m step n tr' s' t'

  -- The same through a loop over an array; each entry stays related to what it was.
  pub for_each_keeps :
      {A : Type 0} (T : Trace → Type 0) (R : A → A → Type 0) (body : A → M A)
      → ((x : A) (tr : Trace) → Safe tr → T tr → Keeps (body x) tr (λ x' tr'. R x x' × T tr'))
      → (xs : List A) (tr : Trace) → Safe tr
      → T tr
      → Keeps (for_each body xs) tr (λ xs' tr'. Pointwise R xs xs' × T tr')
  for_each_keeps T R body step [] tr s t = pure_keeps [] tr s (tt, t)
  for_each_keeps T R body step (x ∷ xs) tr s t =
      bind_keeps (body x) (λ x'. for_each body xs >>= λ xs'. pure (x' ∷ xs')) tr (step x tr s t)
        λ x' tr' s' (r, t').
          bind_keeps (for_each body xs) (λ xs'. pure (x' ∷ xs')) tr'
            (for_each_keeps T R body step xs tr' s' t')
            λ xs' tr'' s'' (rs, t''). pure_keeps (x' ∷ xs') tr'' s'' ((r, rs), t'')

  -- A round keeps the invariant where the loop goes on.
  abbrev pub Again : {S : Type 0} → (S → Trace → Type 0) → Round S → Trace → Type 0
  Again Inv (again t) tr = Inv t tr
  Again Inv (break t) tr = Unit

  resume_keeps :
      {S : Type 0} (Inv : S → Trace → Type 0) (go : S → M (Option S))
      → ((s : S) (tr : Trace) → Safe tr → Inv s tr → Keeps (go s) tr (λ _ _. Unit))
      → (r : Round S) (tr : Trace) → Safe tr
      → Again Inv r tr
      → Keeps (resume go r) tr (λ _ _. Unit)
  resume_keeps Inv go rest (again t) tr safe i = record {
    safe = (rest t tr safe i).safe;
    meets = (rest t tr safe i).meets;
  }
  resume_keeps Inv go rest (break t) tr safe i = record { safe = safe; meets = tt }

  pub forever_keeps :
      {S : Type 0} (Inv : S → Trace → Type 0) (body : S → M (Round S))
      → ((s : S) (tr : Trace) → Safe tr → Inv s tr → Keeps (body s) tr (Again Inv))
      → (fuel : ℕ) (s : S) (tr : Trace) → Safe tr
      → Inv s tr
      → Keeps (forever fuel body s) tr (λ _ _. Unit)
  unfolding forever
  forever_keeps Inv body step zero s tr safe i = pure_keeps none tr safe tt
  forever_keeps Inv body step (suc fuel) s tr safe i =
      bind_keeps (body s) (resume (forever fuel body)) tr (step s tr safe i)
        (resume_keeps Inv (forever fuel body) (forever_keeps Inv body step fuel))
