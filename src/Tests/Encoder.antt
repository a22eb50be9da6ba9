-- ===== src/Tests/Encoder.antt =====
-- The encoder of helper/helper_app/disk/vmdk_stream.py, with a stand-in for zlib that puts one byte in front.
use vmware_migration_helper.Base.{
  ℕ, ◌≡◌, refl, arith, true, Option, none, some, List, [], ◌∷◌, ◌++◌, replicate,
}
use vmware_migration_helper.Base.Bytes.{Bytes, codes, decimal, to_le}
use vmware_migration_helper.Disk.Vmdk.{Result, ok, err, pack}
use vmware_migration_helper.Disk.Vmdk.Decoder.{Config}
use vmware_migration_helper.Disk.Vmdk.Encoder.{
  Grain, Output, build_descriptor, pack_int, pack_ints, pack_header, marker, emit, set_entry,
  put_front, put_data, put_grain, put_grains, put_tables, put_end, encode_stream_optimized,
  encode_raw_bytes, encode_empty_disk,
}
use vmware_migration_helper.Disk.Vmdk.Encoder.Rules.{Returned}
use vmware_migration_helper.Disk.Vmdk.Encoder.Pieces.{Inverts}
use vmware_migration_helper.Disk.Vmdk.Encoder.RoundTrip.{Decodes, encode-Decodes}
use vmware_migration_helper.Disk.Vmdk.Encoder.Image.{Restores, encode_raw-Restores}

abbrev compress : Bytes → Bytes
compress b = 1 ∷ b

abbrev inflate : Bytes → Option Bytes
inflate [] = none
inflate (x ∷ b) = some b

abbrev config : Config
config = record {
  expected_capacity = some 1024;
  skip_zero = true;
  inflate = inflate;
  write_works = λ offset bytes. true;
}

inverts : Inverts config compress
inverts = record { inflates = λ b. refl; not_empty = λ b. omega arith; works = λ offset b. refl }

-- Two sectors, of which the first is a grain of sevens that is given in part.
abbrev grains : List Grain
grains = (0, replicate 300 7) ∷ []

encode-Decodes_example :
    Returned
      (Decodes config ((0, replicate 300 7 ++ replicate 212 0) ∷ []) 4)
      (encode_stream_optimized compress 1024 grains 1 128 (codes "disk.vmdk"))
encode-Decodes_example =
    encode-Decodes config compress 1024 grains 1 128 (codes "disk.vmdk") inverts refl refl refl
      (record { aligned = refl; small = omega arith; inside = omega arith }, tt)

abbrev encodes : Result Output → Option ℕ
encodes (ok o) = some o.written
encodes (err e) = none

empty_disk : encodes (encode_empty_disk compress 1024 1 128 (codes "disk.vmdk")) ≡ some 70656
unfolding encode_empty_disk put_front put_data put_grain put_grains put_tables put_end
    build_descriptor pack_int pack_ints pack_header marker emit set_entry encode_stream_optimized
    decimal pack to_le
empty_disk = refl

abbrev raw_config : Config
raw_config = record config { expected_capacity = none }

encode_raw-Restores_example :
    Returned
      (Restores raw_config (replicate 600 7))
      (encode_raw_bytes compress (replicate 600 7) 1 128 (codes "disk.vmdk"))
encode_raw-Restores_example =
    encode_raw-Restores raw_config compress (replicate 600 7) 1 128 (codes "disk.vmdk")
      (record { inflates = λ b. refl; not_empty = λ b. omega arith; works = λ offset b. refl }) refl
      refl
