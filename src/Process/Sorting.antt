-- ===== src/Process/Sorting.antt =====
-- What the schedulers rely on of `qsort`, and a function that has it.
use mathlib.Core.List.Perm
use mathlib.Core.List.{Perm}
use os_project.Prelude.{
  ◌≡◌, Bool, true, false, Bool-cases, inl, inr, List, [], ◌∷◌, All, ℤ, pos, ltb_ℤ, if◌then◌else◌,
}
use os_project.Process.{Process}

-- `cmp` does not put `p` behind `q`.
abbrev pub IsAtMost : (Process → Process → ℤ) → Process → Process → Type 0
IsAtMost cmp p q = ltb_ℤ (pos 0) (cmp p q) ≡ false

-- The comparison function orders the entries that meet a test, as the standard asks of it.
pub record IsComparator (meets : Process → Bool) (cmp : Process → Process → ℤ) : Type 0 where
  pub either :
      (p q : Process)
      → meets p ≡ true
      → meets q ≡ true
      → ltb_ℤ (pos 0) (cmp p q) ≡ true
      → IsAtMost cmp q p
  pub trans :
      (p q r : Process)
      → meets p ≡ true
      → meets q ≡ true
      → meets r ≡ true
      → IsAtMost cmp p q
      → IsAtMost cmp q r
      → IsAtMost cmp p r

abbrev pub IsSortedBy : (Process → Process → ℤ) → List Process → Type 0
IsSortedBy cmp [] = Unit
IsSortedBy cmp (p ∷ ps) = All (IsAtMost cmp p) ps × IsSortedBy cmp ps

abbrev pub Qsort : Type 0
Qsort = (Process → Process → ℤ) → List Process → List Process

-- The contract of the standard library's `qsort`, which leaves the order of equal entries open.
pub record IsQsort (qsort : Qsort) : Type 0 where
  pub permutes : (cmp : Process → Process → ℤ) (ps : List Process) → Perm (qsort cmp ps) ps
  pub sorts :
      (meets : Process → Bool) (cmp : Process → Process → ℤ) (ps : List Process)
      → All (λ p. meets p ≡ true) ps
      → IsComparator meets cmp
      → IsSortedBy cmp (qsort cmp ps)

pub insert : (Process → Process → ℤ) → Process → List Process → List Process
insert cmp p [] = p ∷ []
insert cmp p (q ∷ qs) = if ltb_ℤ (pos 0) (cmp p q) then q ∷ insert cmp p qs else p ∷ q ∷ qs

unfoldable pub insertion_sort : Qsort
unfolding insert
insertion_sort cmp [] = []
insertion_sort cmp (p ∷ ps) = insert cmp p (insertion_sort cmp ps)

module _ (cmp : Process → Process → ℤ) where
  insert-perm : (p : Process) (qs : List Process) → Perm (insert cmp p qs) (p ∷ qs)
  unfolding insert
  insert-perm p [] = Perm.refl (p ∷ [])
  insert-perm p (q ∷ qs) = elim (Bool-cases (ltb_ℤ (pos 0) (cmp p q))) [
    | inl behind ↦ rw behind (Perm.trans (Perm.cons q (insert-perm p qs)) (Perm.swap p q qs))
    | inr before ↦ rw before (Perm.refl (p ∷ q ∷ qs))
  ]

  sort-perm : (ps : List Process) → Perm (insertion_sort cmp ps) ps
  unfolding insertion_sort
  sort-perm [] = Perm.refl []
  sort-perm (p ∷ ps) =
      Perm.trans (insert-perm p (insertion_sort cmp ps)) (Perm.cons p (sort-perm ps))

  module _ (meets : Process → Bool) (order : IsComparator meets cmp) where
    All-trans :
        (p q : Process) (qs : List Process)
        → meets p ≡ true
        → meets q ≡ true
        → All (λ p. meets p ≡ true) qs
        → IsAtMost cmp p q
        → All (IsAtMost cmp q) qs
        → All (IsAtMost cmp p) qs
    All-trans p q [] x y z h k = tt
    All-trans p q (r ∷ qs) x y z h k =
        (order.trans p q r x y z.0 h k.0, All-trans p q qs x y z.1 h k.1)

    insert-All :
        (Q : Process → Type 0) (p : Process) (qs : List Process)
        → Q p
        → All Q qs
        → All Q (insert cmp p qs)
    unfolding insert
    insert-All Q p [] h k = (h, tt)
    insert-All Q p (q ∷ qs) h k = elim (Bool-cases (ltb_ℤ (pos 0) (cmp p q))) [
      | inl behind ↦ rw behind (k.0, insert-All Q p qs h k.1)
      | inr before ↦ rw before (h, k)
    ]

    insert-IsSortedBy :
        (p : Process) (qs : List Process)
        → meets p ≡ true
        → All (λ p. meets p ≡ true) qs
        → IsSortedBy cmp qs
        → IsSortedBy cmp (insert cmp p qs)
    unfolding insert
    insert-IsSortedBy p [] x y h = (tt, tt)
    insert-IsSortedBy p (q ∷ qs) x y h = elim (Bool-cases (ltb_ℤ (pos 0) (cmp p q))) [
      | inl behind ↦ rw behind (
        insert-All (IsAtMost cmp q) p qs (order.either p q x y.0 behind) h.0,
        insert-IsSortedBy p qs x y.1 h.1,
      )
      | inr before ↦ rw before ((before, All-trans p q qs x y.0 y.1 before h.0), h)
    ]

    sort-sorts :
        (ps : List Process)
        → All (λ p. meets p ≡ true) ps
        → All (λ p. meets p ≡ true) (insertion_sort cmp ps) × IsSortedBy cmp (insertion_sort cmp ps)
    unfolding insertion_sort
    sort-sorts [] h = (tt, tt)
    sort-sorts (p ∷ ps) h =
        let (all, sorted) = sort-sorts ps h.1 in
        (
          insert-All (λ p. meets p ≡ true) p (insertion_sort cmp ps) h.0 all,
          insert-IsSortedBy p (insertion_sort cmp ps) h.0 all sorted,
        )

pub insertion_sort-IsQsort : IsQsort insertion_sort
insertion_sort-IsQsort = record {
  permutes = sort-perm;
  sorts = λ meets cmp ps all order. (sort-sorts cmp meets order ps all).1;
}

-- An empty table stays empty.
pub qsort-nil :
    {qsort : Qsort} (q : IsQsort qsort) (cmp : Process → Process → ℤ) → qsort cmp [] ≡ []
qsort-nil q cmp = Perm.eq-nil (q.permutes cmp [])
