-- ===== src/Region/Pages.antt =====
-- The page ranges of the regions: `page_base` and `region_of_page`.
use native.Mathlib.Nat.{div-eq_of_lt, mul-add-div_right, mul-le-mul_right, add-mul}
use kvtier.Prelude.{ℕ, Bool, ◌+◌, ◌-◌, ◌*◌, ◌/◌, ◌≤◌, ◌<◌, ◌≡◌, ◌∙◌, ltb, some, arith}
use kvtier.Region.{RegionMgr, page_base, region_of_page}

-- Every page within region i, counted from its base, is attributed to region i by
-- region_of_page.
pub region_of_page-page_base :
    (rm : RegionMgr) (i r : ℕ)
    → r < rm.region_size_pages
    → region_of_page rm (page_base rm i + r) ≡ some i
unfolding region_of_page page_base
region_of_page-page_base rm i r h =
    let n = rm.region_size_pages in
    let e : 2 + i * n + r - 2 ≡ i * n + r = omega arith in
    let d : (i * n + r) / n ≡ i =
      mul-add-div_right {m = n} (omega arith) i r ∙ omega (arith, div-eq_of_lt h) in
    let no : ltb (2 + i * n + r) 2 ≡ Bool.false = ground arith in rw (no, e, d)

-- A region's pages end at or before the base of every region of a higher index.
pub page_base_apart :
    (rm : RegionMgr) (i j : ℕ) → i < j → page_base rm i + rm.region_size_pages ≤ page_base rm j
unfolding page_base
page_base_apart rm i j h =
    let n = rm.region_size_pages in
    omega (arith, mul-le-mul_right {m = i + 1} {n = j} n (omega arith), add-mul i 1 n)
