-- ===== src/Os.antt =====
-- What the schedulers use of the operating system: the calls with the kernel's answers, the text
-- they print, and the ways in which a C function ends. A computation reads the calls made so far,
-- the newest first, and adds its own.
pub mod Loop
pub mod Triple
pub mod Keeps
pub mod Awake
pub mod Forks
pub mod Waits
use os_project.Prelude.{
  ℕ, zero, suc, ◌+◌, ◌^◌, List, [], ◌∷◌, ltb, ◌==◌, if◌then◌else◌, ◌≡◌, true, false, ltb_ℤ,
  pos_part, neg_part, ◌-◌, ◌%◌, ℤ, pos, negsuc,
}
use os_project.Process.{Name}

-- The policies given to `sched_setscheduler`.
pub data Policy : Type 0 where
  sched_other sched_idle sched_fifo : Policy

-- One constructor for each `printf`, `fprintf` or `perror` of the schedulers.
pub data Message : Type 0 where
  -- FIFO.c
  table_row : Name → ℤ → ℤ → Message
  parent_assigned : Message
  context_switch : Message
  forked : Name → ℕ → ℤ → Message
  exited : Name → ℕ → Message
  ended : Name → ℕ → Message
  fork_failed : Message
  affinity_error : Message
  wakeup_error : Message
  idle_error : Message
  -- SJF.c; the last is shared with RR.c
  called : Message
  reaped : Name → ℤ → Message
  fork_fails : Message
  scheduler_error : Message
  -- PSJF.c; the first two are those of its `proc_assign_cpu`
  core_error : Message
  affinity_perror : Message
  born : Name → Message
  finished : Name → Message
  pid_line : ℤ → Message
  block_error : Message
  pre_running_error : ℤ → Message
  running_error : ℤ → Message
  -- RR.c
  fork_error : Message
  priority_error : Message
  ready_at : Name → ℕ → Message
  finish_at : Name → ℤ → ℕ → Message
  average : ℤ → ℕ → Message
  -- main.c
  open_failure : Message
  not_supported : Message

pub data Call : Type 0 where
  fork_call : Call
  affinity_call : ℤ → ℕ → Call
  scheduler_call : ℤ → Policy → ℕ → Call
  wait_call : ℤ → Call
  spin : ℕ → Call
  print : Message → Call

abbrev pub Trace : Type 0
Trace = List Call

-- The kernel's answers, which may depend on all the calls made before.
pub record Kernel : Type 0 where
  pub fork_answer : Trace → ℤ
  pub affinity_answer : ℤ → ℕ → Trace → ℤ
  pub scheduler_answer : ℤ → Policy → ℕ → Trace → ℤ
  pub own_pid : Trace → ℤ

-- What the kernel answers where no call fails: `fork` gives the parent a pid, which is positive,
-- and `sched_setaffinity` reports no error.
pub record IsReliable (kernel : Kernel) : Type 0 where
  pub fork_ok : (tr : Trace) → ltb_ℤ (pos 0) (kernel.fork_answer tr) ≡ true
  pub affinity_ok :
      (pid : ℤ) (core : ℕ) (tr : Trace) → ltb_ℤ (kernel.affinity_answer pid core tr) (pos 0) ≡ false

-- The kernel changes the scheduling policy of whatever process it is asked for.
pub record AllowsPolicies (kernel : Kernel) : Type 0 where
  pub scheduler_ok :
      (pid : ℤ) (policy : Policy) (priority : ℕ) (tr : Trace)
      → ltb_ℤ (kernel.scheduler_answer pid policy priority tr) (pos 0) ≡ false

-- A function returns, the process exits with a status, an `int` overflows, which C leaves
-- undefined, or a loop inside of the function never ends.
pub data Outcome (A : Type 0) : Type 0 where
  returned : A → Outcome A
  exited_with : ℕ → Outcome A
  overflowed : Outcome A
  hung : Outcome A

abbrev pub M : Type 0 → Type 0
M A = Trace → Outcome A × Trace

module _ {A : Type 0} where
  abbrev pub pure : A → M A
  pure a tr = (returned a, tr)

  abbrev pub exit : ℕ → M A
  exit code tr = (exited_with code, tr)

  abbrev pub overflow : M A
  overflow tr = (overflowed, tr)

  abbrev pub hang : M A
  hang tr = (hung, tr)

module _ {A B : Type 0} where
  abbrev pub and_then : Outcome A → (A → M B) → M B
  and_then (returned a) f tr = f a tr
  and_then (exited_with code) f tr = (exited_with code, tr)
  and_then overflowed f tr = (overflowed, tr)
  and_then hung f tr = (hung, tr)

  infixl 5 ◌>>=◌ ◌>>◌
  abbrev pub ◌>>=◌ : M A → (A → M B) → M B
  ◌>>=◌ m f tr = let (result, after) = m tr in and_then result f after

  abbrev pub ◌>>◌ : M A → M B → M B
  m >> n = m >>= λ _. n

abbrev pub issue : Call → M Unit
issue c tr = (returned tt, c ∷ tr)

abbrev pub say : Message → M Unit
say m = issue (print m)

module _ (kernel : Kernel) where
  open kernel use {fork_answer, affinity_answer, scheduler_answer, own_pid}

  abbrev pub fork : M ℤ
  fork tr = (returned (fork_answer tr), fork_call ∷ tr)

  abbrev pub sched_setaffinity : ℤ → ℕ → M ℤ
  sched_setaffinity pid core tr =
      (returned (affinity_answer pid core tr), affinity_call pid core ∷ tr)

  abbrev pub sched_setscheduler : ℤ → Policy → ℕ → M ℤ
  sched_setscheduler pid policy priority tr =
      (returned (scheduler_answer pid policy priority tr), scheduler_call pid policy priority ∷ tr)

  abbrev pub getpid : M ℤ
  getpid tr = (returned (own_pid tr), tr)

abbrev pub waitpid : ℤ → M Unit
waitpid pid = issue (wait_call pid)

abbrev pub int_max : ℕ
int_max = 2147483647

-- `n++` on an `int` that is not negative.
abbrev pub increment : ℕ → M ℕ
increment n = if ltb n int_max then pure (n + 1) else overflow

-- `n--` on an `int`; `negsuc int_max` is the least one.
abbrev pub decrement : ℤ → M ℤ
decrement (pos zero) = pure (negsuc 0)
decrement (pos (suc n)) = pure (pos n)
decrement (negsuc n) = if ltb n int_max then pure (negsuc (n + 1)) else overflow

-- `n` rounds of a loop whose body only acts.
abbrev pub repeat : ℕ → M Unit → M Unit
repeat zero m = pure tt
repeat (suc n) m = m >> repeat n m

-- A loop over an array whose body updates the entry that it visits.
abbrev pub for_each : {A : Type 0} → (A → M A) → List A → M (List A)
for_each body [] = pure []
for_each body (x ∷ xs) = do x' ← body x; xs' ← for_each body xs; pure (x' ∷ xs')

-- `a - b` on `int`s: the one whose 32 bits are those of the difference, as compiled code has it
-- where the difference overflows.
abbrev pub int_difference : ℤ → ℤ → ℤ
int_difference a b =
    let bits = (pos_part a + neg_part b + 4294967296 - (pos_part b + neg_part a)) % 4294967296 in
    if ltb int_max bits then negsuc (4294967295 - bits) else pos bits

-- An integer that is to be the value of an `int` expression.
abbrev pub checked : ℤ → M ℤ
checked (pos n) = if ltb int_max n then overflow else pure (pos n)
checked (negsuc n) = if ltb int_max n then overflow else pure (negsuc n)
