-- ===== src/Main/Input.antt =====
-- main.c, the reading of the input: what `fscanf` does with `%s` and `%d`, and the calls of it. A
-- text is the list of its bytes, none of them zero. `none` stands for what C leaves undefined: a
-- conversion that fails, so that a variable is read that was never written, a word too long for its
-- array, or a number that is no `int`.
pub mod Layout
use os_project.Prelude.{
  ℕ, zero, suc, ◌+◌, ◌-◌, ◌*◌, Option, none, some, List, [], ◌∷◌, ◌==◌, ◌||◌, ◌&&◌, not, Bool, true,
  false, ltb, ℤ, pos, negsuc, ◌-ℤ◌, if◌then◌else◌, length,
}
use os_project.Process.{Process, Name}
use os_project.Os.{int_max}

abbrev pub Text : Type 0
Text = List ℕ

infixl 5 ◌>>=◌
abbrev pub ◌>>=◌ : {A B : Type 0} → Option A → (A → Option B) → Option B
none >>= f = none
some a >>= f = f a

abbrev pub is_space : ℕ → Bool
is_space c = (c == 32) || (ltb 8 c && ltb c 14)

abbrev pub is_digit : ℕ → Bool
is_digit c = ltb 47 c && ltb c 58

pub skip_space : Text → Text
skip_space [] = []
skip_space (c ∷ s) = let further = skip_space s in if is_space c then further else c ∷ s

pub take_word : Text → Name × Text
take_word [] = ([], [])
take_word (c ∷ s) =
    let (word, rest) = take_word s in if is_space c then ([], c ∷ s) else (c ∷ word, rest)

-- A word of at least one byte that fits an array of `size`, with its terminating zero.
pub fit_word : ℕ → Name × Text → Option (Name × Text)
fit_word size ([], rest) = none
fit_word size (c ∷ word, rest) =
    if ltb (length (c ∷ word)) size then some (c ∷ word, rest) else none

-- `%s` into an array of `size` bytes.
pub scan_word : ℕ → Text → Option (Name × Text)
unfolding skip_space take_word fit_word
scan_word size s = fit_word size (take_word (skip_space s))

-- The number that goes on from `value` with the digits that follow.
pub scan_digits : ℕ → Text → ℕ × Text
scan_digits value [] = (value, [])
scan_digits value (c ∷ s) =
    let further = scan_digits (value * 10 + (c - 48)) s in
    if is_digit c then further else (value, c ∷ s)

pub scan_nat : Text → Option (ℕ × Text)
scan_nat [] = none
scan_nat (c ∷ s) = if is_digit c then some (scan_digits 0 (c ∷ s)) else none

-- A number behind its sign, if it has one.
pub scan_signed : Text → Option (ℤ × Text)
unfolding scan_nat
scan_signed [] = none
scan_signed (c ∷ s) =
    if c == 45
    then (do (n, rest) ← scan_nat s; some (pos 0 -ℤ pos n, rest))
    else if c == 43
    then (do (n, rest) ← scan_nat s; some (pos n, rest))
    else (do (n, rest) ← scan_nat (c ∷ s); some (pos n, rest))

abbrev pub is_int : ℤ → Bool
is_int (pos n) = not (ltb int_max n)
is_int (negsuc n) = not (ltb int_max n)

-- `%d`
pub scan_int : Text → Option (ℤ × Text)
unfolding skip_space scan_signed
scan_int s = do (n, rest) ← scan_signed (skip_space s); if is_int n then some (n, rest) else none

-- `fscanf(file, "%s %d %d", proc[i].name, &proc[i].ready, &proc[i].exec)`, into `p`.
pub scan_process : Process → Text → Option (Process × Text)
unfolding scan_word scan_int
scan_process p s = do
  (name, s1) ← scan_word 20 s
  (ready, s2) ← scan_int s1
  (exec, s3) ← scan_int s2
  some (record p { name = name; ready = ready; exec = exec }, s3)

-- The loop over the entries from `i` on; `memory` is what `malloc` has left in them.
pub scan_table : (ℕ → Process) → ℕ → ℕ → Text → Option (List Process)
unfolding scan_process
scan_table memory i zero s = some []
scan_table memory i (suc n) s = do
  (p, rest) ← scan_process (memory i) s
  ps ← scan_table memory (suc i) n rest
  some (p ∷ ps)

pub record Request : Type 0 where
  pub policy : Name
  pub proc : List Process

-- A negative number of processes asks `malloc` for more memory than there is.
pub scan_entries : (ℕ → Process) → Name → ℤ × Text → Option Request
unfolding scan_table
scan_entries memory policy (pos n, s) = do
  proc ← scan_table memory 0 n s
  some (record { policy = policy; proc = proc })
scan_entries memory policy (negsuc n, s) = none

unfoldable pub scan_input : (ℕ → Process) → Text → Option Request
unfolding scan_word scan_int scan_entries
scan_input memory s = do
  (policy, s1) ← scan_word 16 s
  n_proc ← scan_int s1
  scan_entries memory policy n_proc
