-- ===== src/Process/Tests.antt =====
-- The selection loop at a small table.
use os_project.Prelude.{[], ◌∷◌, pos, length, List}
use os_project.Process.{Process, least_by}
use os_project.Process.Select.{FirstLeast, least_by-FirstLeast}

abbrev entry : Process
entry = record { name = []; ready = pos 1; exec = pos 2; waiting = pos 0; pid = pos 7 }

-- One that has not started, and two that have and are equal.
abbrev three : List Process
three = record entry { pid = pos 0; exec = pos 0 } ∷ entry ∷ entry ∷ []

least_by-FirstLeast_example :
    FirstLeast (λ p. p.exec) entry three (length three) (least_by (λ p. p.exec) entry three)
least_by-FirstLeast_example = least_by-FirstLeast (λ p. p.exec) entry three
