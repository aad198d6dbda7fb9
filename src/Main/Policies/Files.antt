-- ===== src/Main/Policies/Files.antt =====
-- main.c: files whose lines stand for processes with something to run, and their tables.
use os_project.Prelude.{ℕ, suc, ◌<◌, ◌≡◌, refl, List, [], ◌∷◌, false, eq_ℤ, pos, All, arith}
use os_project.Process.{Process}
use os_project.Process.Workload.{IsJob}
use os_project.Psjf.Order.{NoneMarked}
use os_project.Main.{psjf_name, rr_name, sjf_name, fifo_name}
use os_project.Main.Input.Layout.{Line, digits_value, IsWord, IsLine, table_of}

pub psjf_name-IsWord : IsWord 16 psjf_name
psjf_name-IsWord = record {
  some_byte = λ e. cc;
  no_space = (refl, (refl, (refl, (refl, tt))));
  fits = omega arith;
}

pub rr_name-IsWord : IsWord 16 rr_name
rr_name-IsWord = record { some_byte = λ e. cc; no_space = (refl, (refl, tt)); fits = omega arith }

pub sjf_name-IsWord : IsWord 16 sjf_name
sjf_name-IsWord = record {
  some_byte = λ e. cc;
  no_space = (refl, (refl, (refl, tt)));
  fits = omega arith;
}

pub fifo_name-IsWord : IsWord 16 fifo_name
fifo_name-IsWord = record {
  some_byte = λ e. cc;
  no_space = (refl, (refl, (refl, (refl, tt))));
  fits = omega arith;
}

-- A line of the table that stands for a process with something to run.
pub record IsJobLine (l : Line) : Type 0 where
  pub line_ok : IsLine l
  pub has_work : 0 < digits_value l.exec

pub lines_ok : (ls : List Line) → All IsJobLine ls → All IsLine ls
lines_ok [] h = tt
lines_ok (l ∷ ls) h = (h.0.line_ok, lines_ok ls h.1)

module _ (memory : ℕ → Process) where
  pub table-jobs : (i : ℕ) (ls : List Line) → All IsJobLine ls → All IsJob (table_of memory i ls)
  unfolding table_of
  table-jobs i [] h = tt
  table-jobs i (l ∷ ls) h =
      (ground (arith, h.0.line_ok.ready_ok.fits, h.0.has_work), table-jobs (suc i) ls h.1)

  pub table-NoneMarked :
      (unmarked : (i : ℕ) → eq_ℤ (memory i).waiting (pos 1) ≡ false) (i : ℕ) (ls : List Line)
      → NoneMarked (table_of memory i ls)
  unfolding table_of
  table-NoneMarked unmarked i [] = tt
  table-NoneMarked unmarked i (l ∷ ls) = (unmarked i, table-NoneMarked unmarked (suc i) ls)
