-- ===== src/Process.antt =====
-- `struct process` of PSJF.h, and the table `struct process *proc`, whose length is `n_proc`. An
-- index that is -1 where there is none is an `Option ℕ`.
pub mod Select
pub mod Jobs
pub mod Sorting
pub mod Work
pub mod Waiting
pub mod Makespan
pub mod Awake
pub mod Lost
pub mod First
mod Tests
pub mod Workload
use os_project.Prelude.{
  ℕ, suc, Option, none, some, List, [], ◌∷◌, ◌==◌, ◌||◌, Bool, true, false, ℤ, get_or, set,
  if◌then◌else◌, minus_one, pos, eq_ℤ, ltb_ℤ,
}

abbrev pub Name : Type 0
Name = List ℕ

-- The bytes of `name` up to the terminating zero; `pid_t` is an `int`.
pub record Process : Type 0 where
  pub name : Name
  pub ready : ℤ
  pub exec : ℤ
  pub waiting : ℤ
  pub pid : ℤ

-- `proc[i].pid = -1;`
abbrev pub unstarted : Process → Process
unstarted p = record p { pid = minus_one }

-- `proc[i]`, with `stray` for what lies outside of the table.
abbrev pub proc_at : Process → List Process → Option ℕ → Process
proc_at stray proc none = stray
proc_at stray proc (some i) = get_or proc i stray

abbrev pub same_index : Option ℕ → Option ℕ → Bool
same_index none none = true
same_index (some i) (some j) = i == j
same_index _ _ = false

-- The test by which the selection loops skip an entry.
abbrev pub is_idle : Process → Bool
is_idle p = eq_ℤ p.pid minus_one || eq_ℤ p.exec (pos 0)

-- `if (ret == -1 || key(proc[i]) < key(proc[ret])) ret = i;`
abbrev pub better : (Process → ℤ) → Process → Option ℕ → Process → Bool
better key p none held = true
better key p (some j) held = ltb_ℤ (key p) (key held)

-- The loop over the entries from index `i` on.
pub least_from : (Process → ℤ) → Process → List Process → ℕ → Option ℕ → List Process → Option ℕ
least_from key stray proc i ret [] = ret
least_from key stray proc i ret (p ∷ ps) =
    least_from key stray proc (suc i)
      (if is_idle p then ret else if better key p ret (proc_at stray proc ret) then some i else ret)
      ps

-- `ret = -1; for (i = 0; i < n; i++) { if (idle) continue; if (better) ret = i; }`
unfoldable pub least_by : (Process → ℤ) → Process → List Process → Option ℕ
unfolding least_from
least_by key stray proc = least_from key stray proc 0 none proc
