-- ===== src/Tests/Ranges.antt =====
-- The threads of the range copy: helper/helper_app/disk/vhd_range_copy.py.
use vmware_migration_helper.Base.{
  ℕ, ◌≤◌, ◌≡◌, refl, true, false, none, [], ◌∷◌, ◌⊎◌, List, sum_by, all,
}
use vmware_migration_helper.Disk.Ranges.{Range}
use vmware_migration_helper.Disk.Ranges.Workers.{
  Shared, ended, go_on, drained, pop, pass, fetched, again, write, add, report, here, Run, start,
  later, init, threads,
}
use vmware_migration_helper.Disk.Ranges.Workers.Sound.{is_ended, copy_ranges-Copies}
use vmware_migration_helper.Disk.Ranges.Workers.Ends.{CanMove, copy_ranges-Ends}

abbrev one_chunk : List Range
one_chunk = (1024, 512) ∷ []

abbrev copied : Shared
copied = record { queue = []; stop = false; failure = none; written = one_chunk; bytes = 512 }

-- One thread that copies the chunk at the second attempt.
copying : Run 2 (init one_chunk) (threads 4 one_chunk) 10 copied (ended none ∷ [])
copying =
    later
      (later
        (later
          (later
            (later
              (later
                (later
                  (later (later (later start (here (go_on refl))) (here (pop refl))) (here pass))
                  (here (again refl)))
                (here (fetched refl)))
              (here write))
            (here add))
          (here report))
        (here (go_on refl)))
      (here (drained refl))

copy_ranges-Copies_example :
    (copied.queue ≡ [])
    × ((f : Range → ℕ) → sum_by f copied.written ≡ sum_by f one_chunk)
    × (copied.bytes ≡ sum_by (λ (c : Range). c.1) one_chunk)
copy_ranges-Copies_example = copy_ranges-Copies 2 4 one_chunk copying refl refl

copy_ranges-Ends_example :
    (10 ≤ 11) × ((all is_ended (ended none ∷ []) ≡ true) ⊎ CanMove 2 copied (ended none ∷ []))
copy_ranges-Ends_example = copy_ranges-Ends 2 4 one_chunk copying
