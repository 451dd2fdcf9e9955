-- ===== src/Writer/Rotate/Regions.antt =====
-- The states of the regions around the changes that src/writer.cpp, src/gc.cpp and src/cache.cpp
-- make of one region.
use kvtier.Prelude.{
  ℕ, zero, suc, ◌+◌, ◌-◌, ◌%◌, ◌^◌, ◌≤◌, ◌<◌, ◌≡◌, ◌≢◌, refl, sym, ap, ◌∙◌, ◌⊎◌, inl, inr,
  Bool-cases, Option, none, some, Option-cases, List, [], ◌∷◌, ◌==◌, length, length-set, get_or,
  get_or-set_self, get_or-set_ne, ltb, ltb→lt, arith, ℤ, pos,
}
use native.Mathlib.Nat.{mod-lt, mod-eq_of_lt, mod_self}
use kvtier.Device.{Device, write_page}
use kvtier.Region.{RegionHdrSh, RegionMgr, fresh_region, kv_rg_free}
use kvtier.Region.Manager.{write_header}
use kvtier.Gc.{empty_region, least_live, freed_region}
use kvtier.Gc.Victim.{freed_region-IsVictim}
use kvtier.Writer.Rotate.{
  rg_at, store_region, trimmed, with_live, trim_region, cache_force_free_region, next_region,
}

abbrev pub state_at : RegionMgr → ℕ → ℕ
state_at rm i = (rg_at rm i).state

-- `rm'` has the regions of `rm`, of the same states but perhaps at `n`
pub record Same (n : ℕ) (rm rm' : RegionMgr) : Type 0 where
  pub size : rm'.region_size_pages ≡ rm.region_size_pages
  pub cnt : rm'.region_cnt ≡ rm.region_cnt
  pub counter : rm'.epoch_counter ≡ rm.epoch_counter
  pub len : length rm'.rg ≡ length rm.rg
  pub states : (i : ℕ) → i ≢ n → state_at rm' i ≡ state_at rm i

pub store_region-Same :
    (rm : RegionMgr) (n : ℕ) (sh : RegionHdrSh) → Same n rm (store_region rm n sh)
unfolding write_header write_page
store_region-Same rm n sh = record {
  size = refl;
  cnt = refl;
  counter = refl;
  len = length-set rm.rg n sh;
  states = λ i ne.
      ap (λ (s : RegionHdrSh). s.state) (get_or-set_ne rm.rg n i sh fresh_region (λ e. ne (sym e)));
}

pub store_region_at :
    (rm : RegionMgr) (n : ℕ) (sh : RegionHdrSh)
    → n < length rm.rg
    → rg_at (store_region rm n sh) n ≡ sh
unfolding write_header write_page
store_region_at rm n sh l = get_or-set_self rm.rg n sh fresh_region l

pub with_live-length :
    (live : ℕ → ℤ) (i : ℕ) (rg : List RegionHdrSh) → length (with_live live i rg) ≡ length rg
unfolding with_live
with_live-length live i [] = refl
with_live-length live i (sh ∷ rg) = ap suc (with_live-length live (i + 1) rg)

pub with_live-state :
    (live : ℕ → ℤ) (i k : ℕ) (rg : List RegionHdrSh)
    → (get_or (with_live live i rg) k fresh_region).state ≡ (get_or rg k fresh_region).state
unfolding with_live
with_live-state live i k [] = refl
with_live-state live i zero (sh ∷ rg) = refl
with_live-state live i (suc k) (sh ∷ rg) = with_live-state live (i + 1) k rg

module _ (trim : Device → ℕ → ℕ → Device) (dropped : ℕ → RegionMgr → ℕ → ℤ) where
  trim_region-Same : (rm : RegionMgr) (n : ℕ) → Same n rm (trim_region trim dropped rm n)
  unfolding trim_region write_header write_page
  trim_region-Same rm n =
      let f = store_region-Same rm n (trimmed (rg_at rm n)) in
      record { size = refl; cnt = refl; counter = refl; len = f.len; states = f.states }

  drop-Same :
      (rm : RegionMgr) (live : ℕ → ℤ) (n : ℕ)
      → Same n rm (trim_region trim dropped (record rm { rg = with_live live 0 rm.rg }) n)
  drop-Same rm live n =
      let f = trim_region-Same (record rm { rg = with_live live 0 rm.rg }) n in
      record {
        size = f.size;
        cnt = f.cnt;
        counter = f.counter;
        len = f.len ∙ with_live-length live 0 rm.rg;
        states = λ i ne. f.states i ne ∙ with_live-state live 0 i rm.rg;
      }

  -- another region, and what it took to free it
  abbrev pub IsNext : RegionMgr → ℕ → RegionMgr × Option ℕ → Type 0
  IsNext rm old r =
      (r ≡ (rm, none))
      ⊎ ((rm' : RegionMgr) × (n : ℕ) × (r ≡ (rm', some n))
          × Same n rm rm'
          × (n ≢ old)
          × (n < length rm.rg))

  victim-IsNext :
      (rm rm' : RegionMgr) (old n : ℕ)
      → freed_region rm (some old) ≡ some n
      → Same n rm rm'
      → IsNext rm old (rm', some n)
  victim-IsNext rm rm' old n e f =
      let (d, at, l, s, a) = freed_region-IsVictim rm (some old) n e in
      inr (rm', n, refl, f, ground (arith, a), omega (arith, at, l))

  force_free-IsNext :
      (rm : RegionMgr) (old : ℕ)
      → IsNext rm old (cache_force_free_region trim dropped rm (some old))
  unfolding cache_force_free_region freed_region
  force_free-IsNext rm old = elim (Option-cases (empty_region (some old) 0 rm.rg)) [
    | inr (i, e) ↦
        let f : freed_region rm (some old) ≡ some i = rw (e, freed_region) refl in
        rw (e, cache_force_free_region) (victim-IsNext rm _ old i f (trim_region-Same rm i))
    | inl e ↦ elim (Option-cases (least_live (some old) 0 rm.rg (pos (2 ^ 63 - 1)) none)) [
      | inr (v, e') ↦
          let f : freed_region rm (some old) ≡ some v = rw (e, e', freed_region) refl in
          rw (e, e', cache_force_free_region)
            (victim-IsNext rm _ old v f (drop-Same rm (dropped v rm) v))
      | inl e' ↦ rw (e, e', cache_force_free_region) (inl refl)
    ]
  ]

  pub after_ne : (c old : ℕ) → 2 ≤ c → old < c → ((old + 1) % c ≢ old) × ((old + 1) % c < c)
  after_ne c old two l = elim (Bool-cases (ltb (old + 1) c)) [
    | inl t ↦
        let e : (old + 1) % c ≡ old + 1 = mod-eq_of_lt (ltb→lt (old + 1) c t) in
        (λ x. omega (arith, x, e), mod-lt (old + 1) (omega arith))
    | inr t ↦
        let last : old + 1 ≡ c = ground (arith, t, l) in
        let e : (old + 1) % c ≡ 0 = ap (λ (x : ℕ). x % c) last ∙ mod_self c in
        (λ x. omega (arith, x, e, last, two), mod-lt (old + 1) (omega arith))
  ]

  -- the region to write next is another one
  pub next_region-IsNext :
      (rm : RegionMgr) (old : ℕ)
      → rm.region_cnt ≡ length rm.rg
      → 2 ≤ rm.region_cnt
      → old < rm.region_cnt
      → IsNext rm old (next_region trim dropped rm old)
  unfolding next_region
  next_region-IsNext rm old c two l =
      let next : ℕ = (old + 1) % rm.region_cnt in
      let (ne, lt) = after_ne rm.region_cnt old two l in
      elim (Bool-cases ((rg_at rm next).state == kv_rg_free)) [
        | inl t ↦ rw t (
            inr (
              rm,
              next,
              refl,
              record { size = refl; cnt = refl; counter = refl; len = refl; states = λ i _. refl },
              ne,
              omega (arith, lt, c),
            ))
        | inr t ↦ rw t (force_free-IsNext rm old)
      ]
