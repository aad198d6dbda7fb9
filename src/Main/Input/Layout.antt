-- ===== src/Main/Input/Layout.antt =====
-- The layout of an input file, and what `scan_input` reads from a file of that layout.
use native.Mathlib.Nat.{pow-suc, add-mul, mul_assoc, mul_comm}
use os_project.Prelude.{
  ℕ, suc, ◌+◌, ◌-◌, ◌*◌, ◌^◌, ◌≤◌, ◌<◌, ◌≡◌, ◌≢◌, refl, ap, ◌∙◌, some, List, [], ◌∷◌, ◌++◌, true,
  false, ◌==◌, lt→ltb, le→ltb, pos, length, All, arith,
}
use os_project.Process.{Process, Name}
use os_project.Os.{int_max}
use os_project.Main.Input.{
  Text, is_space, is_digit, skip_space, take_word, fit_word, scan_word, scan_digits, scan_nat,
  scan_signed, scan_int, scan_process, scan_table, scan_entries, scan_input,
}

-- A line of the table; the numbers are written in digits.
pub record Line : Type 0 where
  pub name : Name
  pub ready : Text
  pub exec : Text

-- The number that digits stand for.
unfoldable pub digits_value : Text → ℕ
digits_value [] = 0
digits_value (c ∷ s) = (c - 48) * 10 ^ length s + digits_value s

-- Each line begins with the end of the line before it.
pub lines_text : List Line → Text
lines_text [] = 10 ∷ []
lines_text (l ∷ ls) = 10 ∷ (l.name ++ 32 ∷ (l.ready ++ 32 ∷ (l.exec ++ lines_text ls)))

pub file_text : Name → Text → List Line → Text
unfolding lines_text
file_text policy count lines = policy ++ 10 ∷ (count ++ lines_text lines)

-- A word without spaces that fits an array of `size` bytes.
pub record IsWord (size : ℕ) (w : Name) : Type 0 where
  pub some_byte : w ≢ []
  pub no_space : All (λ c. is_space c ≡ false) w
  pub fits : length w < size

pub record IsNumeral (s : Text) : Type 0 where
  pub some_digit : s ≢ []
  pub digits : All (λ c. is_digit c ≡ true) s
  pub fits : digits_value s ≤ int_max

pub record IsLine (l : Line) : Type 0 where
  pub name_ok : IsWord 20 l.name
  pub ready_ok : IsNumeral l.ready
  pub exec_ok : IsNumeral l.exec

-- The table that the lines stand for: two fields of an entry are what `memory` holds.
unfoldable pub table_of : (ℕ → Process) → ℕ → List Line → List Process
unfolding digits_value
table_of memory i [] = []
table_of memory i (l ∷ ls) =
    record (memory i) {
      name = l.name;
      ready = pos (digits_value l.ready);
      exec = pos (digits_value l.exec);
    }
    ∷ table_of memory (suc i) ls

abbrev BeginsWithSpace : Text → Type 0
BeginsWithSpace [] = ⊥
BeginsWithSpace (c ∷ s) = is_space c ≡ true

take_word-word :
    (w : Name) (t : Text)
    → All (λ c. is_space c ≡ false) w
    → BeginsWithSpace t
    → take_word (w ++ t) ≡ (w, t)
unfolding take_word
take_word-word [] [] h b = absurd b
take_word-word [] (c ∷ t) h b = rw b
take_word-word (c ∷ w) t h b = rw (take_word-word w t h.1 b) (rw h.0)

skip_space-word :
    (w : Name) (t : Text) → w ≢ [] → All (λ c. is_space c ≡ false) w → skip_space (w ++ t) ≡ w ++ t
unfolding skip_space
skip_space-word [] t n h = absurd (n refl)
skip_space-word (c ∷ w) t n h = rw h.0

skip_space-space : (c : ℕ) (s : Text) → is_space c ≡ true → skip_space (c ∷ s) ≡ skip_space s
unfolding skip_space
skip_space-space c s e = rw e

fit_word-word :
    (size : ℕ) (w : Name) (t : Text) → w ≢ [] → length w < size → fit_word size (w, t) ≡ some (w, t)
unfolding fit_word
fit_word-word size [] t n lt = absurd (n refl)
fit_word-word size (c ∷ w) t n lt = rw (lt→ltb (length (c ∷ w)) size lt)

scan_word-word :
    (size : ℕ) (w : Name) (t : Text)
    → IsWord size w
    → BeginsWithSpace t
    → scan_word size (w ++ t) ≡ some (w, t)
unfolding scan_word
scan_word-word size w t h b =
    rw (skip_space-word w t h.some_byte h.no_space, take_word-word w t h.no_space b)
      (fit_word-word size w t h.some_byte h.fits)

scan_word-space :
    (size c : ℕ) (w : Name) (t : Text)
    → is_space c ≡ true
    → IsWord size w
    → BeginsWithSpace t
    → scan_word size (c ∷ (w ++ t)) ≡ some (w, t)
unfolding scan_word
scan_word-space size c w t e h b =
    rw
      (
        skip_space-space c (w ++ t) e,
        skip_space-word w t h.some_byte h.no_space,
        take_word-word w t h.no_space b,
      )
      (fit_word-word size w t h.some_byte h.fits)

space_no_digit : (c : ℕ) → is_space c ≡ true → is_digit c ≡ false
space_no_digit c h = ground arith

digit_no_space : (c : ℕ) → is_digit c ≡ true → is_space c ≡ false
digit_no_space c h = ground arith

shift : (v d k x : ℕ) → (v * 10 + d) * 10 ^ k + x ≡ v * 10 ^ suc k + (d * 10 ^ k + x)
shift v d k x = rw (pow-suc, add-mul, mul_assoc, mul_comm 10 (10 ^ k)) (omega arith)

scan_digits-digits :
    (v : ℕ) (s t : Text)
    → All (λ c. is_digit c ≡ true) s
    → BeginsWithSpace t
    → scan_digits v (s ++ t) ≡ (v * 10 ^ length s + digits_value s, t)
unfolding scan_digits digits_value
scan_digits-digits v [] [] h b = absurd b
scan_digits-digits v [] (c ∷ t) h b = rw (space_no_digit c b) (ap (λ n. (n, c ∷ t)) (omega arith))
scan_digits-digits v (c ∷ s) t h b = rw h.0 (
    rw (scan_digits-digits (v * 10 + (c - 48)) s t h.1 b)
      (ap (λ n. (n, t)) (shift v (c - 48) (length s) (digits_value s))))

scan_nat-digits :
    (s t : Text)
    → s ≢ []
    → All (λ c. is_digit c ≡ true) s
    → BeginsWithSpace t
    → scan_nat (s ++ t) ≡ some (digits_value s, t)
unfolding scan_nat
scan_nat-digits [] t n h b = absurd (n refl)
scan_nat-digits (c ∷ s) t n h b =
    rw h.0 (ap (λ r. some r) (scan_digits-digits 0 (c ∷ s) t h b ∙ ap (λ v. (v, t)) (omega arith)))

digit_no_minus : (c : ℕ) → is_digit c ≡ true → (c == 45) ≡ false
digit_no_minus c h = ground arith

digit_no_plus : (c : ℕ) → is_digit c ≡ true → (c == 43) ≡ false
digit_no_plus c h = ground arith

scan_signed-digits :
    (s t : Text)
    → s ≢ []
    → All (λ c. is_digit c ≡ true) s
    → BeginsWithSpace t
    → scan_signed (s ++ t) ≡ some (pos (digits_value s), t)
unfolding scan_signed
scan_signed-digits [] t n h b = absurd (n refl)
scan_signed-digits (c ∷ s) t n h b =
    rw (digit_no_minus c h.0) (rw (digit_no_plus c h.0) (rw (scan_nat-digits (c ∷ s) t n h b)))

All-no_space : (s : Text) → All (λ c. is_digit c ≡ true) s → All (λ c. is_space c ≡ false) s
All-no_space [] h = tt
All-no_space (c ∷ s) h = (digit_no_space c h.0, All-no_space s h.1)

scan_int-space :
    (c : ℕ) (s t : Text)
    → is_space c ≡ true
    → IsNumeral s
    → BeginsWithSpace t
    → scan_int (c ∷ (s ++ t)) ≡ some (pos (digits_value s), t)
unfolding scan_int
scan_int-space c s t e h b = rw (skip_space-space c (s ++ t) e) (
    rw (skip_space-word s t h.some_digit (All-no_space s h.digits)) (
      rw (scan_signed-digits s t h.some_digit h.digits b)
        (rw (le→ltb int_max (digits_value s) h.fits))))

lines_text-BeginsWithSpace : (ls : List Line) → BeginsWithSpace (lines_text ls)
unfolding lines_text
lines_text-BeginsWithSpace [] = refl
lines_text-BeginsWithSpace (l ∷ ls) = refl

scan_process-line :
    (p : Process) (l : Line) (ls : List Line)
    → IsLine l
    → scan_process p (lines_text (l ∷ ls))
      ≡ some (
        record p {
          name = l.name;
          ready = pos (digits_value l.ready);
          exec = pos (digits_value l.exec);
        },
        lines_text ls,
      )
unfolding scan_process lines_text
scan_process-line p l ls h = rw (scan_word-space 20 10 l.name _ refl h.name_ok refl) (
    rw (scan_int-space 32 l.ready _ refl h.ready_ok refl) (
      rw (scan_int-space 32 l.exec (lines_text ls) refl h.exec_ok (lines_text-BeginsWithSpace ls))))

scan_table-lines :
    (memory : ℕ → Process) (i : ℕ) (ls : List Line)
    → All IsLine ls
    → scan_table memory i (length ls) (lines_text ls) ≡ some (table_of memory i ls)
unfolding scan_table table_of
scan_table-lines memory i [] h = refl
scan_table-lines memory i (l ∷ ls) h =
    rw (scan_process-line (memory i) l ls h.0) (rw (scan_table-lines memory (suc i) ls h.1))

-- From a text of the layout of an input file main reads the policy and the table that it stands
-- for, when the count is that of the lines, the words fit their arrays and the numbers fit an int.
pub scan_input-file_text :
    (memory : ℕ → Process) (policy : Name) (count : Text) (ls : List Line)
    → IsWord 16 policy
    → IsNumeral count
    → digits_value count ≡ length ls
    → All IsLine ls
    → scan_input memory (file_text policy count ls)
      ≡ some (record { policy = policy; proc = table_of memory 0 ls })
unfolding scan_input file_text scan_entries
scan_input-file_text memory policy count ls word numeral counted lines =
    rw (scan_word-word 16 policy (10 ∷ (count ++ lines_text ls)) word refl) (
      rw (scan_int-space 10 count (lines_text ls) refl numeral (lines_text-BeginsWithSpace ls))
        (rw counted (rw (scan_table-lines memory 0 ls lines))))
