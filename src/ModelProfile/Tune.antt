-- ===== src/ModelProfile/Tune.antt =====
-- `kv_mp_tune` of src/model_profile.cpp: when it fails, and the sizes it returns.
use native.Mathlib.Nat.{mod-lt, mod-eq_of_lt, div-add-mod'}
use kvtier.Prelude.{
  ℕ, ◌+◌, ◌-◌, ◌*◌, ◌/◌, ◌^◌, ◌≤◌, ◌<◌, ◌≡◌, refl, sym, ◌≢◌, ◌↔◌, false, ◌==◌, Bool-cases, inl, inr,
  ◌⊎◌, some, none, arith,
}
use kvtier.Common.{u64}
use kvtier.ModelProfile.{
  ModelProfile, ModelTuning, or_default, mp_align_up, mp_align_down, region_align, batch_bytes,
  kv_mp_group_bytes, kv_mp_tune, tuning,
}

-- the size of a full group, which `kv_mp_tune` takes
abbrev pub full_group : ModelProfile → ℕ
full_group p = kv_mp_group_bytes p (or_default p.tokens_per_group 32)

none_≢_some : {A : Type 0} → {x : A} → none ≢ some x
none_≢_some e = cc e

-- kv_mp_tune answers KV_MP_EINVAL exactly when the page size or the size of a full group is
-- zero.
pub kv_mp_tune_fails :
    (p : ModelProfile) (page region stripe batch : ℕ)
    → (kv_mp_tune p page region stripe batch ≡ none) ↔ ((page ≡ 0) ⊎ (full_group p ≡ 0))
unfolding kv_mp_tune kv_mp_group_bytes
kv_mp_tune_fails p page region stripe batch = elim (Bool-cases (page == 0)) [
  | inl z ↦ (λ _. inl (ground (arith, z)), λ _. rw z refl)
  | inr z ↦ elim (Bool-cases (full_group p == 0)) [
    | inl y ↦ (λ _. inr (ground (arith, y)), λ _. rw (z, y) refl)
    | inr y ↦ (
      λ e. absurd (none_≢_some (sym (rw (z, y, kv_mp_tune) at e))),
      λ e. absurd (elim e [ inl a ↦ ground (arith, z, a) | inr b ↦ ground (arith, y, b) ]),
    )
  ]
]

mp_align_down_lem : (v a : ℕ) → 0 < a → (mp_align_down v a ≤ v) × (v < mp_align_down v a + a)
unfolding mp_align_down
mp_align_down_lem v a h =
    let m = mod-lt v h in
    let e = div-add-mod' v a in
    elim (Bool-cases (a == 0)) [
      | inl z ↦ absurd (ground (arith, z, h))
      | inr z ↦ rw z (omega arith, omega arith)
    ]

mp_align_up_lem :
    (v a : ℕ) → 0 < a → v + a < 2 ^ 64 → (v ≤ mp_align_up v a) × (mp_align_up v a < v + a)
unfolding mp_align_up
mp_align_up_lem v a h b =
    let m = mod-lt (v + a - 1) h in
    let e = div-add-mod' (v + a - 1) a in
    let t : u64 (v + a - 1) ≡ v + a - 1 = mod-eq_of_lt (omega arith) in
    elim (Bool-cases (a == 0)) [
      | inl z ↦ absurd (ground (arith, z, h))
      | inr z ↦
          let s : u64 ((v + a - 1) / a * a) ≡ (v + a - 1) / a * a = mod-eq_of_lt (omega arith) in
          rw (z, t, s) (omega arith, omega arith)
    ]

or_default_pos : (a b : ℕ) → 0 < b → 0 < or_default a b
or_default_pos a b h = ground (arith, h)

batch_bytes_pos : (g p b t : ℕ) → 0 < p → 0 < batch_bytes g p b t
unfolding batch_bytes
batch_bytes_pos g p b t h = search or_default_pos

region_align_lem :
    (g r : ℕ) → 0 < g → (0 < region_align g r) × ((region_align g r ≤ r) ⊎ (region_align g r ≡ g))
unfolding region_align
region_align_lem g r h = elim (Bool-cases (r == 0)) [
  | inl z ↦ rw z (h, inr refl)
  | inr z ↦ elim (Bool-cases (mp_align_down r g == 0)) [
    | inl y ↦ rw (z, y) (h, inr refl)
    | inr y ↦ rw (z, y) (ground (arith, y), inl (mp_align_down_lem r g h).0)
  ]
]

-- On a page and a group that are not empty and stay below 2^64 together, kv_mp_tune succeeds;
-- the DRAM entry holds a group and less than a page more, the batch is not empty, and the region
-- alignment is positive and fits the region unless it is the group itself.
pub kv_mp_tune_lem :
    (p : ModelProfile) (page region stripe batch : ℕ)
    → 0 < page
    → 0 < full_group p
    → full_group p + page < 2 ^ 64
    → (t : ModelTuning) × (kv_mp_tune p page region stripe batch ≡ some t)
      × (t.group_bytes ≡ full_group p)
      × (t.group_bytes ≤ t.dram_entry_max_bytes)
      × (t.dram_entry_max_bytes < t.group_bytes + page)
      × (0 < t.batch_min_bytes)
      × (0 < t.region_align_bytes)
      × ((t.region_align_bytes ≤ region) ⊎ (t.region_align_bytes ≡ t.group_bytes))
unfolding kv_mp_tune kv_mp_group_bytes tuning
kv_mp_tune_lem p page region stripe batch h g b =
    let z : page == 0 ≡ false = ground (arith, h) in
    let y : full_group p == 0 ≡ false = ground (arith, g) in
    let d = mp_align_up_lem (full_group p) page h b in
    let r = region_align_lem (full_group p) region g in
    (
      tuning p page region stripe batch,
      rw (z, y) refl,
      refl,
      d.0,
      d.1,
      batch_bytes_pos (full_group p) page _ _ h,
      r.0,
      r.1,
    )
