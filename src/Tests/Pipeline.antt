-- ===== src/Tests/Pipeline.antt =====
-- The pipeline of the decoder: helper/helper_app/disk/pipeline.py.
use vmware_migration_helper.Base.{◌≤◌, ◌≡◌, refl, arith, true, none, some, List, [], ◌∷◌}
use vmware_migration_helper.Base.Bytes.{Bytes}
use vmware_migration_helper.Disk.Vmdk.{ok}
use vmware_migration_helper.Disk.Vmdk.Decoder.{Config, Decoder, new, feed, finish, decode}
use vmware_migration_helper.Disk.Pipeline.{
  Shared, feeding, joining, waiting, done, look, put, get, decode_chunk, finish_looks, close,
  get_end, joined, Run, start, later, init,
}
use vmware_migration_helper.Disk.Pipeline.Refines.{pipeline-Decodes}
use vmware_migration_helper.Disk.Pipeline.Progress.{moves, CanMove, pipeline-Ends}

abbrev plain : Config
plain = record {
  expected_capacity = none;
  skip_zero = true;
  inflate = λ bytes. some bytes;
  write_works = λ offset bytes. true;
}

-- A stream of one byte, which waits for the rest of the header.
abbrev byte : List Bytes
byte = (7 ∷ []) ∷ []

abbrev one_byte : Decoder
unfolding new
one_byte = record new { buf = 7 ∷ []; bytes_consumed = 1 }

abbrev shared : Shared
shared = record { queue = []; error = none; decoder = one_byte }

fed : feed plain (7 ∷ []) new ≡ ok one_byte
unfolding feed decode
fed = refl

to_join : Run plain 1 (init new) (feeding byte) waiting shared joining done
to_join =
    later
      (later
        (later
          (later (later (later (later start (look refl)) (put (omega arith))) (get refl))
            (decode_chunk fed))
          (finish_looks refl))
        (close (omega arith)))
      (get_end refl)

pipeline-Decodes_example : finish one_byte ≡ decode plain byte
pipeline-Decodes_example = pipeline-Decodes plain 1 byte (later to_join (joined refl))

pipeline-Ends_example : (moves to_join ≤ 13) × CanMove plain 1 shared joining done
pipeline-Ends_example = pipeline-Ends plain 1 byte (omega arith) to_join tt
