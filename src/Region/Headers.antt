-- ===== src/Region/Headers.antt =====
-- The region headers that `write_header` leaves are those that `load` reads back.
use kvtier.Prelude.{
  ℕ, zero, suc, ◌+◌, ◌^◌, ◌<◌, ◌≡◌, refl, ◌∙◌, ap, ◌≢◌, ◌⊎◌, inl, inr, true, false, ◌==◌, ==_iff,
  none, some, List, [], ◌∷◌, arith, length, get_or, pos, pos_part, ltb, lt→ltb, Bool-cases,
}
use kvtier.Common.{kv_eok, kv_rg_magic}
use kvtier.Common.Bytes.{le_value-le_bytes}
use kvtier.Crc.Append.{crc32_partial-lt}
use kvtier.Device.{write_page}
use kvtier.Region.{RegionHeader, RegionHdrSh, RegionMgr, fresh_region, page_base, kv_rg_free}
use kvtier.Region.Manager.{
  rg_bytes, rg_of, rg_crc, rg_valid, rg_set_crc, header_draft, write_header, load_region, next_free,
  first_free,
}

-- every field of the shadow fits its width on the page
pub record Fits (sh : RegionHdrSh) : Type 0 where
  pub epoch : sh.epoch < 256 ^ 8
  pub base_ts : sh.base_ts < 256 ^ 8
  pub close_ts : sh.close_ts < 256 ^ 8
  pub watermark_page : sh.watermark_page < 256 ^ 8
  pub live_bytes : pos_part sh.live_bytes < 2 ^ 63
  pub state : sh.state < 256

-- the header as it is written
abbrev pub stored : RegionHdrSh → RegionHeader
stored sh = rg_set_crc (header_draft sh)

rg_crc-set : (h : RegionHeader) → rg_crc (rg_bytes (rg_set_crc h)) ≡ rg_crc (rg_bytes h)
unfolding rg_crc rg_bytes rg_set_crc
rg_crc-set h = refl

rg_crc-lt : (page : List ℕ) → rg_crc page < 2 ^ 32
unfolding rg_crc
rg_crc-lt page = crc32_partial-lt _ _ (crc32_partial-lt 0 _ (omega arith))

set_crc-crc32 : (h : RegionHeader) → (rg_set_crc h).crc32 ≡ rg_crc (rg_bytes h)
unfolding rg_set_crc
set_crc-crc32 h = refl

record HeaderFits (h : RegionHeader) : Type 0 where
  magic : h.magic < 256 ^ 4
  crc32 : h.crc32 < 256 ^ 4
  epoch : h.epoch < 256 ^ 8
  base_ts : h.base_ts < 256 ^ 8
  close_ts : h.close_ts < 256 ^ 8
  watermark_page : h.watermark_page < 256 ^ 8
  live_bytes_hint : h.live_bytes_hint < 256 ^ 8
  state : h.state < 256 ^ 1

rg_of-rg_bytes : (h : RegionHeader) → HeaderFits h → rg_of (rg_bytes h) ≡ h
unfolding rg_of rg_bytes
rg_of-rg_bytes h f = λ i. record {
  magic = le_value-le_bytes 4 h.magic f.magic i;
  crc32 = le_value-le_bytes 4 h.crc32 f.crc32 i;
  epoch = le_value-le_bytes 8 h.epoch f.epoch i;
  base_ts = le_value-le_bytes 8 h.base_ts f.base_ts i;
  close_ts = le_value-le_bytes 8 h.close_ts f.close_ts i;
  watermark_page = le_value-le_bytes 8 h.watermark_page f.watermark_page i;
  live_bytes_hint = le_value-le_bytes 8 h.live_bytes_hint f.live_bytes_hint i;
  state = le_value-le_bytes 1 h.state f.state i;
}

stored-HeaderFits : (sh : RegionHdrSh) → Fits sh → HeaderFits (stored sh)
unfolding rg_set_crc header_draft
stored-HeaderFits sh f = record {
  magic = omega arith;
  crc32 = omega (arith, rg_crc-lt (rg_bytes (header_draft sh)));
  epoch = f.epoch;
  base_ts = f.base_ts;
  close_ts = f.close_ts;
  watermark_page = f.watermark_page;
  live_bytes_hint = omega (arith, f.live_bytes);
  state = omega (arith, f.state);
}

rg_of-stored : (sh : RegionHdrSh) → Fits sh → rg_of (rg_bytes (stored sh)) ≡ stored sh
rg_of-stored sh f = rg_of-rg_bytes (stored sh) (stored-HeaderFits sh f)

stored-magic : (sh : RegionHdrSh) → (stored sh).magic ≡ kv_rg_magic
unfolding rg_set_crc header_draft
stored-magic sh = refl

stored-valid : (sh : RegionHdrSh) → Fits sh → rg_valid (rg_bytes (stored sh)) ≡ true
unfolding rg_valid
stored-valid sh f =
    let e = rg_of-stored sh f in
    let magic : (rg_of (rg_bytes (stored sh))).magic ≡ kv_rg_magic =
      ap (λ (h : RegionHeader). h.magic) e ∙ stored-magic sh in
    let crc : (rg_of (rg_bytes (stored sh))).crc32 ≡ rg_crc (rg_bytes (header_draft sh)) =
      ap (λ (h : RegionHeader). h.crc32) e ∙ set_crc-crc32 (header_draft sh) in
    rw (magic, crc, rg_crc-set (header_draft sh)) ((==_iff _ _).1 refl)

-- the shadow without what the header cannot hold, a negative count of live bytes
abbrev pub kept : RegionHdrSh → RegionHdrSh
kept sh = record sh { live_bytes = pos (pos_part sh.live_bytes) }

load-stored : (sh prev : RegionHdrSh) → Fits sh → load_region (rg_bytes (stored sh)) prev ≡ kept sh
unfolding load_region
load-stored sh prev f =
    let small : ltb (pos_part sh.live_bytes) (2 ^ 63) ≡ true = lt→ltb _ _ f.live_bytes in
    rw (stored-valid sh f, rg_of-stored sh f) (unfold rg_set_crc header_draft in rw small refl)

-- If write_header succeeds on a region whose fields fit, the live bytes an int64_t, what load
-- makes of that page is the region as the manager held it, with negative live bytes read as 0.
pub load_region-write_header :
    (rm : RegionMgr) (i : ℕ) (prev : RegionHdrSh)
    → Fits (get_or rm.rg i fresh_region)
    → (write_header rm i).1 ≡ kv_eok
    → load_region ((write_header rm i).0.dev.pages (page_base rm i)) prev
      ≡ kept (get_or rm.rg i fresh_region)
unfolding write_header write_page
load_region-write_header rm i prev f ok =
    let p = page_base rm i in
    let here : (p == p) ≡ true = (==_iff p p).1 refl in
    rw (ok, here) (load-stored (get_or rm.rg i fresh_region) prev f)

-- A page that is no valid region header makes its region free and of epoch 0.
pub load_region_invalid :
    (page : List ℕ) (prev : RegionHdrSh)
    → rg_valid page ≡ false
    → ((load_region page prev).state ≡ kv_rg_free) × ((load_region page prev).epoch ≡ 0)
unfolding load_region
load_region_invalid page prev h = ground (arith, h)

-- no region below index `d` is free
abbrev pub BusyBelow : List RegionHdrSh → ℕ → Type 0
BusyBelow rg d = (k : ℕ) → k < d → (get_or rg k fresh_region).state ≢ kv_rg_free

BusyBelow-cons :
    (sh : RegionHdrSh) (rg : List RegionHdrSh) (d : ℕ)
    → sh.state ≢ kv_rg_free
    → BusyBelow rg d
    → BusyBelow (sh ∷ rg) (suc d)
BusyBelow-cons sh rg d b h zero l = b
BusyBelow-cons sh rg d b h (suc k) l = h k (omega arith)

first_free_cases :
    (i : ℕ) (rg : List RegionHdrSh)
    → ((first_free i rg ≡ none) × BusyBelow rg (length rg))
      ⊎ ((d : ℕ) × (first_free i rg ≡ some (i + d))
          × (d < length rg)
          × ((get_or rg d fresh_region).state ≡ kv_rg_free)
          × BusyBelow rg d)
unfolding first_free
first_free_cases i [] = inl (refl, λ k h. absurd (omega arith))
first_free_cases i (sh ∷ rg) = elim (Bool-cases (sh.state == kv_rg_free)) [
  | inl free ↦ inr (
    0,
    rw free (ap some (omega arith)),
    omega arith,
    ground (arith, free),
    λ k h. absurd (omega arith),
  )
  | inr busy ↦
      let b : sh.state ≢ kv_rg_free = ground (arith, busy) in
      elim (first_free_cases (i + 1) rg) [
        | inl (e, all) ↦ inl (rw (busy, e), BusyBelow-cons sh rg (length rg) b all)
        | inr (d, e, lt, f, below) ↦ inr (
          suc d,
          rw (busy, e) (ap some (omega arith)),
          omega arith,
          f,
          BusyBelow-cons sh rg d b below,
        )
      ]
]

-- next_free returns the lowest index of a free region, and -1 exactly when no region is free.
pub next_free_lem :
    (rm : RegionMgr)
    → ((next_free rm ≡ none) × BusyBelow rm.rg (length rm.rg))
      ⊎ ((d : ℕ) × (next_free rm ≡ some d)
          × (d < length rm.rg)
          × ((get_or rm.rg d fresh_region).state ≡ kv_rg_free)
          × BusyBelow rm.rg d)
unfolding next_free
next_free_lem rm = elim (first_free_cases 0 rm.rg) [
  | inl none' ↦ inl none'
  | inr (d, e, lt, f, below) ↦ inr (d, e ∙ ap some (omega arith), lt, f, below)
]
