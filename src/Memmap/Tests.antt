-- ===== src/Memmap/Tests.antt =====
-- The theorems on src/kernel/memmap.c at a concrete map.
use platinum.Memmap.Capture.{MapAnswer, capture_and_exit, CaptureSpec, capture_and_exit-CaptureSpec}
use platinum.Prelude.{ℕ, Bool, ltb, ◌+◌, ◌/◌, ◌≡◌, some, u64, arith, ◌==◌, if◌then◌else◌}
use platinum.Memmap.Parse.{regions_from, pages_from, parse-counts}
use platinum.Memmap.{Memmap, parse, get_descriptor, find_largest_conventional_region}
use platinum.Memmap.Largest.{AllPlain, LargestSpec, find_largest_conventional_region_lem}

-- Sixteen conventional pages, and a million reserved ones.
abbrev pub two_descriptors : Memmap
two_descriptors = record {
  at = λ offset.
      if offset == 0
      then record { kind = 7; physical_start = 0x2000000; number_of_pages = 16 }
      else record { kind = 0; physical_start = 0x4000000; number_of_pages = 1000000 };
  size_used = 96;
  descriptor_size = 48;
  descriptor_version = 1;
  descriptor_count = 2;
  conventional_region_count = 1;
  conventional_page_count = 16;
}

pub two_descriptors-AllPlain : AllPlain two_descriptors
unfolding get_descriptor
two_descriptors-AllPlain i d h = ground arith

find_largest_conventional_region_lem_example :
    LargestSpec 0x2000000 0x100000000 two_descriptors
      (find_largest_conventional_region 0x2000000 0x100000000 two_descriptors)
find_largest_conventional_region_lem_example =
    find_largest_conventional_region_lem 0x2000000 0x100000000 two_descriptors (omega arith)
      two_descriptors-AllPlain

-- A map whose last bytes are no whole descriptor.
parse-counts_example :
    (m' : Memmap) × (parse 3 100 48 1 (two_descriptors.at) ≡ some m')
    × (m'.conventional_region_count ≡ u64 (regions_from 48 (two_descriptors.at) 0 (100 / 48)))
    × (m'.conventional_page_count ≡ u64 (pages_from 48 (two_descriptors.at) 0 (100 / 48)))
    × (m'.descriptor_count ≡ 100 / 48)
parse-counts_example =
    parse-counts 3 100 48 1 (two_descriptors.at) (omega arith) (omega arith) (omega arith)

-- A firmware, with the number of its calls as its state, that accepts a key from its fourth call on.
abbrev firmware_map : ℕ → ℕ × MapAnswer
firmware_map calls = (
  calls + 1,
  record {
    status = 0;
    size = 96;
    key = calls;
    descriptor_size = 48;
    descriptor_version = 1;
    at = two_descriptors.at;
  },
)

abbrev firmware_exit : ℕ → ℕ → ℕ × ℕ
firmware_exit key calls = (calls + 1, if ltb calls 3 then 2 else 0)

capture_and_exit-CaptureSpec_example :
    (r : Bool × Memmap × ℕ) × (capture_and_exit firmware_map firmware_exit 3 0 two_descriptors
      ≡ some r)
    × CaptureSpec firmware_map firmware_exit 3 0 r
capture_and_exit-CaptureSpec_example =
    capture_and_exit-CaptureSpec firmware_map firmware_exit 3 0 two_descriptors
      (λ g. (omega arith, omega arith, omega arith))
