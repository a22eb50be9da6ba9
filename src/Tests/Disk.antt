-- ===== src/Tests/Disk.antt =====
-- The ranges and the VMDK stream: helper/helper_app/disk.
use vmware_migration_helper.Base.{
  ℕ, ◌≡◌, ◌≢◌, refl, true, false, ◌&&◌, Option, none, some, List, [], ◌∷◌, ◌++◌, ltb, length,
  sum_by, All, arith, replicate,
}
use vmware_migration_helper.Base.Bytes.{Bytes, to_le, from_le, strip, lstrip}
use vmware_migration_helper.Disk.Ranges.{Range, merge_ranges, split_chunks, covers}
use vmware_migration_helper.Disk.Ranges.Merge.{covers-merge_ranges}
use vmware_migration_helper.Disk.Ranges.Pages.{
  Document, Reply, document, next_of, Serves, more, last, is_listed, Lists, list_page_ranges,
  list_page_ranges-Lists,
}
use vmware_migration_helper.Disk.Ranges.Split.{Returns, Cuts, split_chunks-Cuts}
use vmware_migration_helper.Disk.Vmdk.{SparseExtentHeader, pack, unpack, ok, err, out_of_fuel}
use vmware_migration_helper.Disk.Vmdk.Decoder.{Config, DecodeStats, decode}
use vmware_migration_helper.Disk.Vmdk.Decoder.Chunks.{decode-join, join}
use vmware_migration_helper.Disk.Vmdk.Decoder.Bounds.{Fits, IsNonzero, decode_safe}
use vmware_migration_helper.Disk.Vmdk.Decoder.Termination.{decode_ends}

abbrev ranges : List Range
ranges = (8, 4) ∷ (0, 4) ∷ (2, 5) ∷ []

merged : merge_ranges ranges 10 ≡ (0, 7) ∷ (8, 2) ∷ []
unfolding merge_ranges
merged = refl

covers-merge_ranges_example : covers 9 (merge_ranges ranges 10) ≡ (covers 9 ranges && ltb 9 10)
covers-merge_ranges_example = covers-merge_ranges 9 ranges 10

split_chunks_example : Returns (split_chunks ranges 3) (Cuts 3 ranges)
split_chunks_example = split_chunks-Cuts 3 (omega arith) ranges

-- A disk of two grains of one sector each.
abbrev header : SparseExtentHeader
header = record {
  version = 3;
  flags = 0x30001;
  capacity_sectors = 2;
  grain_sectors = 1;
  descriptor_offset = 0;
  descriptor_sectors = 0;
  gtes_per_gt = 512;
  rgd_offset = 0;
  gd_offset = 0;
  overhead_sectors = 1;
  unclean_shutdown = false;
  compress_algorithm = 1;
}

-- A stand-in for zlib: the data is one byte, repeated over the grain.
abbrev inflate_one : Bytes → Option Bytes
inflate_one [] = none
inflate_one (b ∷ bs) = some (replicate 512 b)

abbrev config : Config
config = record {
  expected_capacity = some 1024;
  skip_zero = true;
  inflate = inflate_one;
  write_works = λ offset bytes. true;
}

abbrev grain_of : ℕ → ℕ → Bytes
grain_of lba b = to_le 8 lba ++ (to_le 4 1 ++ (b ∷ replicate 499 0))

-- A grain of sevens, a grain of zeros, and the end of the stream.
abbrev stream : List Bytes
stream = pack header ∷ grain_of 0 7 ∷ (grain_of 1 0 ++ replicate 512 0) ∷ []

decode-join_example : decode config stream ≡ decode config (join stream ∷ [])
decode-join_example = decode-join config stream

decode_ends_example : decode config stream ≢ err out_of_fuel
decode_ends_example = decode_ends config stream

abbrev expected : DecodeStats
expected = record {
  bytes_consumed = 2048;
  grains_written = 1;
  bytes_written = 512;
  metadata_markers = 1;
  finished = true;
  writes = (0, replicate 512 7) ∷ [];
}

decodes : decode config stream ≡ ok expected
unfolding decode pack to_le unpack from_le
decodes = refl

decode_safe_example :
    (All (Fits 1024) expected.writes)
    × (All (IsNonzero true) expected.writes)
    × (expected.grains_written ≡ length expected.writes)
    × (expected.bytes_written ≡ sum_by (λ w. length w.1) expected.writes)
decode_safe_example = decode_safe config 1024 refl stream expected decodes

-- Two documents, of which the second lists the footer of the blob too.
abbrev first_page : Document
first_page = record { pairs = (0, 511) ∷ []; next_marker = some (32 ∷ 50 ∷ []) }

abbrev second_page : Document
second_page = record { pairs = (512, 1535) ∷ []; next_marker = some (32 ∷ []) }

abbrev answers : Option Bytes → Reply
answers none = document first_page
answers (some marker) = document second_page

abbrev pages : List Document
pages = first_page ∷ second_page ∷ []

serves : Serves (λ n. answers) 0 none pages false
unfolding next_of strip lstrip
serves = more refl refl (last refl refl)

list_page_ranges_example :
    Lists false (λ x. is_listed x pages && ltb x 1024) (list_page_ranges (λ n. answers) 3 1024)
list_page_ranges_example =
    list_page_ranges-Lists (λ n. answers) 3 1024 pages false serves (omega arith)
