-- ===== src/Main/Comparators.antt =====
-- The comparators of FIFO, SJF and RR.
use os_project.Prelude.{◌≡◌, refl, ltb_ℤ, pos, arith}
use os_project.Process.{Process}
use os_project.Process.Workload.{IsJob}
use os_project.Fifo.Control.{compare}
use os_project.Sjf.{cmp}
use os_project.Rr.Control.{rr_compare}

-- On processes that are ready at a time between 0 and the largest int and have something to run,
-- the comparator of FIFO, which tests, and that of SJF, which subtracts, have the same sign, and
-- that of RR is SJF's.
pub compare-cmp :
    (p q : Process)
    → IsJob p
    → IsJob q
    → (ltb_ℤ (pos 0) (cmp p q) ≡ ltb_ℤ (pos 0) (compare p q))
      × (ltb_ℤ (cmp p q) (pos 0) ≡ ltb_ℤ (compare p q) (pos 0))
      × (rr_compare p q ≡ cmp p q)
unfolding compare cmp rr_compare
compare-cmp p q jp jq = (ground arith, ground arith, refl)
