-- ===== src/Main/Tests.antt =====
-- The program at a small file.
use os_project.Prelude.{
  ℕ, ◌≡◌, ltb_ℤ, pos, ap, ◌≤◌, ◌<◌, refl, some, List, [], ◌∷◌, All, map, arith,
}
use os_project.Process.{Process}
use os_project.Process.Sorting.{insertion_sort, insertion_sort-IsQsort}
use os_project.Process.Work.{total_left}
use os_project.Process.Workload.{job_of}
use os_project.Os.{hang}
use os_project.Os.Triple.{Returns, Exits}
use os_project.Samples.{
  obliging, obliging-IsReliable, obliging-AllowsPolicies, stray, two_jobs, two_jobs-IsWorkload,
}
use os_project.Psjf.Order.{FollowsTimeline}
use os_project.Sjf.{cmp}
use os_project.Sjf.Order.{FollowsPlan}
use os_project.Fifo.Control.{compare}
use os_project.Fifo.Order.{FollowsSchedule}
use os_project.Rr.Control.{rr_compare}
use os_project.Rr.Order.{FollowsTurns}
use os_project.Main.{main, psjf_name, rr_name, sjf_name, fifo_name}
use os_project.Main.Input.{scan_input}
use os_project.Main.Input.Layout.{
  Line, file_text, digits_value, IsWord, IsNumeral, IsLine, table_of, scan_input-file_text,
}
use os_project.Process.Makespan.{IsMakespan}
use os_project.Main.Comparators.{compare-cmp}
use os_project.Main.Errors.{schedulers-Exits, main-unsupported}
use os_project.Os.Forks.{NoFork}
use os_project.Samples.{refusing, job}
use os_project.Psjf.{psjf}
use os_project.Sjf.{sjf}
use os_project.Rr.{rr_main}
use os_project.Fifo.{fifo}
use os_project.Os.{returned, print, not_supported}
use os_project.Rr.Control.{rr_compare}
use os_project.Main.Agree.{AllEndAt, schedulers-AllEndAt}
use os_project.Main.Policies.Files.{IsJobLine}
use os_project.Main.Policies.{Completes, main-psjf, main-sjf, main-fifo, main-rr}

-- A process of the name A that is ready at 1 and runs for 2, and one of the name B, 0 and 3.
abbrev two_lines : List Line
two_lines =
    record { name = 65 ∷ []; ready = 49 ∷ []; exec = 50 ∷ [] }
    ∷ record { name = 66 ∷ []; ready = 48 ∷ []; exec = 51 ∷ [] }
    ∷ []

abbrev memory : ℕ → Process
memory i = stray

digit-IsNumeral : (c : ℕ) → 48 ≤ c → c ≤ 57 → IsNumeral (c ∷ [])
unfolding digits_value
digit-IsNumeral c lo hi = record {
  some_digit = λ e. cc;
  digits = (ground arith, tt);
  fits = omega arith;
}

letter-IsWord : (c : ℕ) → 64 < c → IsWord 20 (c ∷ [])
letter-IsWord c h = record {
  some_byte = λ e. cc;
  no_space = (ground arith, tt);
  fits = omega arith;
}

psjf_name-IsWord : IsWord 16 psjf_name
psjf_name-IsWord = record {
  some_byte = λ e. cc;
  no_space = (refl, (refl, (refl, (refl, tt))));
  fits = omega arith;
}

two_lines-IsLine : All IsLine two_lines
two_lines-IsLine = (
  record {
    name_ok = letter-IsWord 65 (omega arith);
    ready_ok = digit-IsNumeral 49 (omega arith) (omega arith);
    exec_ok = digit-IsNumeral 50 (omega arith) (omega arith);
  },
  (
    record {
      name_ok = letter-IsWord 66 (omega arith);
      ready_ok = digit-IsNumeral 48 (omega arith) (omega arith);
      exec_ok = digit-IsNumeral 51 (omega arith) (omega arith);
    },
    tt,
  ),
)

two_lines-IsJobLine : All IsJobLine two_lines
unfolding digits_value
two_lines-IsJobLine = (
  record { line_ok = two_lines-IsLine.0; has_work = omega arith },
  (record { line_ok = two_lines-IsLine.1.0; has_work = omega arith }, tt),
)

two_counted : digits_value (50 ∷ []) ≡ 2
unfolding digits_value
two_counted = refl

scan_input-file_text_example :
    scan_input memory (file_text psjf_name (50 ∷ []) two_lines)
    ≡ some (record { policy = psjf_name; proc = table_of memory 0 two_lines })
scan_input-file_text_example =
    scan_input-file_text memory psjf_name (50 ∷ []) two_lines psjf_name-IsWord
      (digit-IsNumeral 50 (omega arith) (omega arith)) two_counted two_lines-IsLine

main-psjf_example :
    Returns
      (main obliging stray memory insertion_sort
        (λ text. hang)
        7
        (some (file_text psjf_name (50 ∷ []) two_lines)))
      []
      (Completes (FollowsTimeline obliging stray (map job_of (table_of memory 0 two_lines)) 6))
unfolding total_left table_of digits_value
main-psjf_example =
    main-psjf obliging stray memory insertion_sort (λ text. hang) 7 (50 ∷ []) two_lines
      (digit-IsNumeral 50 (omega arith) (omega arith)) two_counted two_lines-IsJobLine 1
      obliging-IsReliable (λ i. refl) (omega arith, (omega arith, tt)) (omega arith) (omega arith)

main-sjf_example :
    Exits
      (main obliging stray memory insertion_sort
        (λ text. hang)
        7
        (some (file_text sjf_name (50 ∷ []) two_lines)))
      []
      0
      (FollowsPlan obliging stray (map job_of (insertion_sort cmp (table_of memory 0 two_lines))) 6)
unfolding total_left table_of digits_value insertion_sort cmp
main-sjf_example =
    main-sjf obliging stray memory insertion_sort (λ text. hang) 7 (50 ∷ []) two_lines
      (digit-IsNumeral 50 (omega arith) (omega arith)) two_counted two_lines-IsJobLine
      obliging-IsReliable insertion_sort-IsQsort (λ e. cc) 1 (omega arith, (omega arith, tt))
      (omega arith) (omega arith)

main-fifo_example :
    Returns
      (main obliging stray memory insertion_sort
        (λ text. hang)
        6
        (some (file_text fifo_name (50 ∷ []) two_lines)))
      []
      (Completes (
        FollowsSchedule obliging stray []
          (map job_of (insertion_sort compare (table_of memory 0 two_lines)))))
unfolding table_of digits_value insertion_sort compare
main-fifo_example =
    main-fifo obliging stray memory insertion_sort (λ text. hang) 6 (50 ∷ []) two_lines
      (digit-IsNumeral 50 (omega arith) (omega arith)) two_counted two_lines-IsJobLine
      obliging-IsReliable insertion_sort-IsQsort (λ e. cc) (omega arith) (omega arith)

main-rr_example :
    Returns
      (main obliging stray memory insertion_sort
        (λ text. hang)
        7
        (some (file_text rr_name (50 ∷ []) two_lines)))
      []
      (Completes (
        FollowsTurns obliging stray
          (map job_of (insertion_sort rr_compare (table_of memory 0 two_lines)))
          6))
unfolding total_left table_of digits_value insertion_sort rr_compare
main-rr_example =
    main-rr obliging stray memory insertion_sort (λ text. hang) 7 (50 ∷ []) two_lines
      (digit-IsNumeral 50 (omega arith) (omega arith)) two_counted two_lines-IsJobLine
      obliging-IsReliable insertion_sort-IsQsort (λ e. cc) 1 obliging-AllowsPolicies
      (omega arith, (omega arith, tt)) (omega arith) (omega arith) (omega arith)

schedulers-AllEndAt_example :
    (e : ℕ) × IsMakespan 0 (map job_of two_jobs) e
    × AllEndAt obliging stray insertion_sort 7 two_jobs e
unfolding total_left
schedulers-AllEndAt_example =
    schedulers-AllEndAt obliging stray insertion_sort 7 two_jobs 1 obliging-IsReliable
      obliging-AllowsPolicies insertion_sort-IsQsort two_jobs-IsWorkload (refl, (refl, tt))
      (λ e. cc) (omega arith, (omega arith, tt)) (omega arith) (omega arith) (omega arith)

compare-cmp_example :
    (ltb_ℤ (pos 0) (cmp (job 1 3 2) (job 2 1 2)) ≡ ltb_ℤ (pos 0) (compare (job 1 3 2) (job 2 1 2)))
    × (ltb_ℤ (cmp (job 1 3 2) (job 2 1 2)) (pos 0)
        ≡ ltb_ℤ (compare (job 1 3 2) (job 2 1 2)) (pos 0))
    × (rr_compare (job 1 3 2) (job 2 1 2) ≡ cmp (job 1 3 2) (job 2 1 2))
compare-cmp_example = compare-cmp (job 1 3 2) (job 2 1 2) refl refl

schedulers-Exits_example :
    Exits (psjf refusing stray 7 two_jobs) [] 1 NoFork
    × Exits (sjf refusing stray insertion_sort 7 two_jobs) [] 1 NoFork
    × Exits (rr_main refusing stray insertion_sort 7 two_jobs) [] 1 NoFork
    × Exits (fifo refusing stray insertion_sort 7 two_jobs) [] 1 NoFork
schedulers-Exits_example = schedulers-Exits refusing stray (λ tr. refl) insertion_sort 7 two_jobs

-- HRRN is none of the four.
abbrev hrrn : List ℕ
hrrn = 72 ∷ 82 ∷ 82 ∷ 78 ∷ []

abbrev first : List ℕ → ℕ
first [] = 0
first (c ∷ cs) = c

main-unsupported_example :
    main obliging stray memory insertion_sort
      (λ text. hang)
      7
      (some (file_text hrrn (50 ∷ []) two_lines))
      []
    ≡ (returned (some 0), print not_supported ∷ [])
main-unsupported_example =
    main-unsupported obliging stray memory insertion_sort (λ text. hang) 7 (50 ∷ []) two_lines hrrn
      [] (digit-IsNumeral 50 (omega arith) (omega arith)) two_counted two_lines-IsLine
      (record {
        some_byte = λ e. cc;
        no_space = (refl, (refl, (refl, (refl, tt))));
        fits = omega arith;
      })
      (λ e. let wrong : 72 ≡ 80 = ap first e in absurd (omega arith))
      (λ e. let wrong : 72 ≡ 82 = ap first e in absurd (omega arith))
      (λ e. let wrong : 72 ≡ 83 = ap first e in absurd (omega arith))
      (λ e. let wrong : 72 ≡ 70 = ap first e in absurd (omega arith))
