-- ===== src/Palloc/Tests.antt =====
-- The theorems on src/kernel/palloc.c at concrete states.
use platinum.Prelude.{
  ℕ, List, ◌<◌, ◌^◌, ◌+◌, ◌≡◌, ◌⊎◌, refl, true, false, some, [], ◌∷◌, arith, ◌==◌, if◌then◌else◌,
  align_down,
}
use platinum.Palloc.{Palloc, take, initialize}
use platinum.Palloc.Pages.{IsWf, free_times, take-IsWf}
use platinum.Palloc.SelfTest.{self_test, SelfTestSpec, self_test-SelfTestSpec}
use platinum.Palloc.Setup.{IsConventional, initialize-IsConventional}
use platinum.Memmap.Tests.{two_descriptors, two_descriptors-AllPlain}

abbrev pub two_pages : Palloc
two_pages = record {
  free_list = 0x2000000 ∷ 0x2001000 ∷ [];
  region_begin = 0x2000000;
  region_end = 0x2002000;
  free_page_count = 2;
}

abbrev one_page : Palloc
one_page = record two_pages { free_list = 0x2000000 ∷ []; free_page_count = 1 }

pub two_pages-IsWf : IsWf two_pages
two_pages-IsWf = record { counted = refl; unique = λ a. ground arith; pages = λ a h. ground arith }

one_page-IsWf : IsWf one_page
one_page-IsWf = record { counted = refl; unique = λ a. ground arith; pages = λ a h. ground arith }

-- An address inside the second page.
take-IsWf_example :
    IsWf (take 0x2001234 two_pages).1
    × ((((take 0x2001234 two_pages).0 ≡ false)
          × (free_times (align_down 0x2001234) two_pages ≡ 0)
          × ((take 0x2001234 two_pages).1 ≡ two_pages))
        ⊎ (((take 0x2001234 two_pages).0 ≡ true)
            × ((a : ℕ)
                → free_times a two_pages
                  ≡ free_times a (take 0x2001234 two_pages).1
                    + (if align_down 0x2001234 == a then 1 else 0))))
take-IsWf_example = take-IsWf two_pages 0x2001234 two_pages-IsWf

initialize-IsConventional_example :
    (t : Palloc) × (initialize (2 ^ 21) two_descriptors ≡ some t)
    × IsWf t
    × ((page : ℕ) → 0 < free_times page t → IsConventional two_descriptors page)
initialize-IsConventional_example =
    initialize-IsConventional (2 ^ 21) two_descriptors two_descriptors-AllPlain (omega arith)

self_test-SelfTestSpec_example :
    (text : List ℕ) × (s' : Palloc) × (self_test two_pages ≡ some (text, s'))
    × SelfTestSpec two_pages text s'
self_test-SelfTestSpec_example = self_test-SelfTestSpec two_pages two_pages-IsWf
