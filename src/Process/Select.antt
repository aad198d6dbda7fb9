-- ===== src/Process/Select.antt =====
-- The selection loop finds the first of the least entries that are not idle.
use os_project.Prelude.{
  ℕ, suc, ◌+◌, ◌<◌, ◌≡◌, ◌∙◌, ap, ◌⊎◌, inl, inr, Option, none, some, List, [], ◌∷◌, true, false,
  Bool-cases, ℤ, ltb_ℤ, if◌then◌else◌, get_or, length, arith,
}
use os_project.Process.{Process, proc_at, is_idle, better, least_from, least_by}

ltb_ℤ-trans : (a b c : ℤ) → ltb_ℤ a b ≡ true → ltb_ℤ c b ≡ false → ltb_ℤ a c ≡ true
ltb_ℤ-trans a b c h k = ground arith

ltb_ℤ-irrefl : (a : ℤ) → ltb_ℤ a a ≡ false
ltb_ℤ-irrefl a = ground arith

ltb_ℤ-asym : (a b : ℤ) → ltb_ℤ a b ≡ true → ltb_ℤ b a ≡ false
ltb_ℤ-asym a b h = ground arith

module _ (key : Process → ℤ) (stray : Process) (proc : List Process) where
  abbrev entry : ℕ → Process
  entry i = get_or proc i stray

  -- Entry `j` is the first of the least entries below `bound` that are not idle.
  pub record IsFirst (bound j : ℕ) : Type 0 where
    pub within : j < bound
    pub busy : is_idle (get_or proc j stray) ≡ false
    pub least :
        (i : ℕ)
        → i < bound
        → is_idle (get_or proc i stray) ≡ false
        → ltb_ℤ (key (get_or proc i stray)) (key (get_or proc j stray)) ≡ false
    pub first :
        (i : ℕ)
        → i < j
        → is_idle (get_or proc i stray) ≡ false
        → ltb_ℤ (key (get_or proc j stray)) (key (get_or proc i stray)) ≡ true

  -- What `ret` is after the entries below `bound`.
  abbrev pub FirstLeast : ℕ → Option ℕ → Type 0
  FirstLeast bound none = (i : ℕ) → i < bound → is_idle (get_or proc i stray) ≡ true
  FirstLeast bound (some j) = IsFirst bound j

  abbrev next_ret : ℕ → Option ℕ → Option ℕ
  next_ret i ret =
      if is_idle (entry i)
      then ret
      else if better key (entry i) ret (proc_at stray proc ret)
      then some i
      else ret

  last_or_below : (i k : ℕ) → i < suc k → (i < k) ⊎ (i ≡ k)
  last_or_below i k h = omega arith

  -- A fact of the entries below `k` and of entry `k` is one of the entries below `k + 1`.
  extend : (P : ℕ → Type 0) (k : ℕ) → ((i : ℕ) → i < k → P i) → P k → (i : ℕ) → i < suc k → P i
  extend P k below at i lt = elim (last_or_below i k lt) [
    | inl less ↦ below i less
    | inr last ↦ rw last at
  ]

  step_idle :
      (k : ℕ) (ret : Option ℕ)
      → is_idle (entry k) ≡ true
      → FirstLeast k ret
      → FirstLeast (suc k) ret
  step_idle k none idle h = extend (λ i. is_idle (entry i) ≡ true) k h idle
  step_idle k (some j) idle h = record {
    within = omega (arith, h.within);
    busy = h.busy;
    least =
        extend (λ i. is_idle (entry i) ≡ false → ltb_ℤ (key (entry i)) (key (entry j)) ≡ false) k
          h.least (λ b. cc);
    first = h.first;
  }

  step_worse :
      (k j : ℕ) → ltb_ℤ (key (entry k)) (key (entry j)) ≡ false → IsFirst k j → IsFirst (suc k) j
  step_worse k j worse h = record {
    within = omega (arith, h.within);
    busy = h.busy;
    least =
        extend (λ i. is_idle (entry i) ≡ false → ltb_ℤ (key (entry i)) (key (entry j)) ≡ false) k
          h.least (λ b. worse);
    first = h.first;
  }

  step_new :
      (k : ℕ)
      → is_idle (entry k) ≡ false
      → ((i : ℕ) → i < k → is_idle (entry i) ≡ true)
      → IsFirst (suc k) k
  step_new k busy idle = record {
    within = omega arith;
    busy = busy;
    least =
        extend (λ i. is_idle (entry i) ≡ false → ltb_ℤ (key (entry i)) (key (entry k)) ≡ false) k
          (λ i lt b. cc (idle i lt)) (λ b. ltb_ℤ-irrefl (key (entry k)));
    first = λ i lt b. cc (idle i lt);
  }

  step_better :
      (k j : ℕ)
      → is_idle (entry k) ≡ false
      → ltb_ℤ (key (entry k)) (key (entry j)) ≡ true
      → IsFirst k j
      → IsFirst (suc k) k
  step_better k j busy less h = record {
    within = omega arith;
    busy = busy;
    least =
        extend (λ i. is_idle (entry i) ≡ false → ltb_ℤ (key (entry i)) (key (entry k)) ≡ false) k
          (λ i lt b.
            ltb_ℤ-asym (key (entry k)) (key (entry i))
              (ltb_ℤ-trans (key (entry k)) (key (entry j)) (key (entry i)) less (h.least i lt b)))
          (λ b. ltb_ℤ-irrefl (key (entry k)));
    first =
        λ i lt b. ltb_ℤ-trans (key (entry k)) (key (entry j)) (key (entry i)) less (h.least i lt b);
  }

  step_busy :
      (k : ℕ) (ret : Option ℕ)
      → is_idle (entry k) ≡ false
      → FirstLeast k ret
      → FirstLeast
          (suc k)
          (if better key (entry k) ret (proc_at stray proc ret) then some k else ret)
  step_busy k none busy h = step_new k busy h
  step_busy k (some j) busy h = elim (Bool-cases (ltb_ℤ (key (entry k)) (key (entry j)))) [
    | inl less ↦ rw less (step_better k j busy less h)
    | inr worse ↦ rw worse (step_worse k j worse h)
  ]

  step_next : (k : ℕ) (ret : Option ℕ) → FirstLeast k ret → FirstLeast (suc k) (next_ret k ret)
  step_next k ret h = elim (Bool-cases (is_idle (entry k))) [
    | inl idle ↦ rw idle (step_idle k ret idle h)
    | inr busy ↦ rw busy (step_busy k ret busy h)
  ]

  least_from-FirstLeast :
      (ps : List Process) (k : ℕ) (ret : Option ℕ)
      → ((i : ℕ) → get_or ps i stray ≡ get_or proc (i + k) stray)
      → length ps + k ≡ length proc
      → FirstLeast k ret
      → FirstLeast (length proc) (least_from key stray proc k ret ps)
  unfolding least_from
  least_from-FirstLeast [] k ret same len h = let e : k ≡ length proc = omega arith in rw (← e) h
  least_from-FirstLeast (p ∷ ps) k ret same len h =
      let here : p ≡ entry k = same 0 ∙ ap (λ n. entry n) (omega arith) in
      rw here (
        least_from-FirstLeast ps (suc k) (next_ret k ret)
          (λ i. same (suc i) ∙ ap (λ n. entry n) (omega arith)) (omega arith) (step_next k ret h))

  -- The selection loop of FIFO and SJF finds nothing exactly where every entry is idle, and
  -- otherwise the first of the least entries that are not.
  pub least_by-FirstLeast : FirstLeast (length proc) (least_by key stray proc)
  unfolding least_by
  least_by-FirstLeast =
      least_from-FirstLeast proc 0 none (λ i. ap (λ n. entry n) (omega arith)) (omega arith)
        (λ i lt. absurd (omega arith))
