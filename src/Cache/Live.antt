-- ===== src/Cache/Live.antt =====
-- `region_live_add` and `region_live_sub` of src/cache.cpp: the live bytes of the region that a
-- page belongs to. The `fetch_add` is atomic.
use kvtier.Prelude.{
  ℕ, zero, suc, ◌*◌, ◌≡◌, refl, ◌∙◌, ap, none, some, List, [], ◌∷◌, get_or, set, ℤ, pos, negsuc,
  add_ℕ, sub_ℕ, Option-cases, inl, inr, arith,
}
use kvtier.Common.{kv_page_size}
use kvtier.Region.{RegionHdrSh, RegionMgr, fresh_region, region_of_page}

abbrev add_live : RegionHdrSh → ℕ → RegionHdrSh
add_live sh n = record sh { live_bytes = add_ℕ sh.live_bytes n }

abbrev sub_live : RegionHdrSh → ℕ → RegionHdrSh
sub_live sh n = record sh { live_bytes = sub_ℕ sh.live_bytes n }

abbrev put_region : RegionMgr → ℕ → RegionHdrSh → RegionMgr
put_region rm i sh = record rm { rg = set rm.rg i sh }

unfoldable pub region_live_add : RegionMgr → ℕ → ℕ → RegionMgr
region_live_add rm page_no len_pages = elim (region_of_page rm page_no) [
  | none ↦ rm
  | some i ↦ put_region rm i (add_live (get_or rm.rg i fresh_region) (len_pages * kv_page_size))
]

unfoldable pub region_live_sub : RegionMgr → ℕ → ℕ → RegionMgr
region_live_sub rm page_no len_pages = elim (region_of_page rm page_no) [
  | none ↦ rm
  | some i ↦ put_region rm i (sub_live (get_or rm.rg i fresh_region) (len_pages * kv_page_size))
]

sub-add_ℕ : (z : ℤ) (n : ℕ) → sub_ℕ (add_ℕ z n) n ≡ z
sub-add_ℕ (pos a) n = ground arith
sub-add_ℕ (negsuc a) n = ground arith

region_of_page-put :
    (rm : RegionMgr) (i : ℕ) (sh : RegionHdrSh) (page : ℕ)
    → region_of_page (put_region rm i sh) page ≡ region_of_page rm page
unfolding region_of_page
region_of_page-put rm i sh page = refl

set-get_or-set :
    (xs : List RegionHdrSh) (i n : ℕ)
    → (let sh = get_or xs i fresh_region in
        let ys = set xs i (add_live sh n) in set ys i (sub_live (get_or ys i fresh_region) n))
      ≡ xs
set-get_or-set [] i n = refl
set-get_or-set (x ∷ xs) zero n = λ j. record x { live_bytes = sub-add_ℕ x.live_bytes n j } ∷ xs
set-get_or-set (x ∷ xs) (suc i) n = ap (◌∷◌ x) (set-get_or-set xs i n)

-- Taking off the live bytes of a chunk that were added for its page leaves every region as it
-- was.
pub live_sub-live_add :
    (rm : RegionMgr) (page_no len_pages : ℕ)
    → region_live_sub (region_live_add rm page_no len_pages) page_no len_pages ≡ rm
unfolding region_live_sub region_live_add
live_sub-live_add rm page_no len_pages = elim (Option-cases (region_of_page rm page_no)) [
  | inl e ↦ rw (e, region_live_add) (rw (e, region_live_sub) refl)
  | inr (i, e) ↦
      let rm' =
        put_region rm i (add_live (get_or rm.rg i fresh_region) (len_pages * kv_page_size)) in
      let e' : region_of_page rm' page_no ≡ some i = region_of_page-put rm i _ page_no ∙ e in
      rw (e, region_live_add)
        (rw (e', region_live_sub)
          (λ j. record rm { rg = set-get_or-set rm.rg i (len_pages * kv_page_size) j }))
]
