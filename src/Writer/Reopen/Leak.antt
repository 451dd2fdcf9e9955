-- ===== src/Writer/Reopen/Leak.antt =====
-- Which regions are open after src/cache.cpp has opened a cache again.
use kvtier.Prelude.{
  ℕ, zero, suc, ◌+◌, ◌-◌, ◌^◌, ◌≤◌, ◌<◌, ◌≡◌, ◌≢◌, refl, sym, ap, ◌∙◌, ◌⊎◌, inl, inr, ◌&&◌, not,
  Bool-cases, Option, none, some, Option-cases, List, [], ◌∷◌, ◌==◌, ==_iff, ltb, length, get_or, ℤ,
  pos, eq_ℤ, arith, ℕ_discrete,
}
use kvtier.Region.{RegionHdrSh, RegionMgr, fresh_region, kv_rg_open, kv_rg_frozen}
use kvtier.Region.Manager.{next_free}
use kvtier.Region.Headers.{next_free_lem}
use kvtier.Writer.Rotate.{rg_at, store_region, open_region}
use kvtier.Writer.Rotate.Regions.{
  state_at, store_region-Same, store_region_at, with_live-state, with_live-length,
}
use kvtier.Writer.Rotate.Rotation.{IsOpened, open_region-IsOpened}
use kvtier.Writer.Reopen.{settled, settle_regions, oldest_frozen, choose_open, reopen}

-- settling keeps which regions are open
record Settled (rm rm' : RegionMgr) : Type 0 where
  len : length rm'.rg ≡ length rm.rg
  keeps : (i : ℕ) → state_at rm i ≡ kv_rg_open → state_at rm' i ≡ kv_rg_open
  adds_none : (i : ℕ) → state_at rm' i ≡ kv_rg_open → state_at rm i ≡ kv_rg_open

settled_open :
    (sh : RegionHdrSh)
    → (sh.state ≡ kv_rg_open → (settled sh).state ≡ kv_rg_open)
      × ((settled sh).state ≡ kv_rg_open → sh.state ≡ kv_rg_open)
unfolding settled
settled_open sh = elim (Bool-cases (eq_ℤ sh.live_bytes (pos 0))) [
  | inl z ↦ elim (Bool-cases (sh.state == kv_rg_open)) [
    | inl o ↦ rw (z, o) (λ e. e, λ e. e)
    | inr o ↦ rw (z, o) (λ e. absurd (cc (o, (==_iff sh.state 1).1 e)), λ e. omega (arith, e))
  ]
  | inr z ↦ elim (Bool-cases (sh.state == kv_rg_open)) [
    | inl o ↦ rw (z, o) (λ e. e, λ e. e)
    | inr o ↦ rw (z, o) (λ e. absurd (cc (o, (==_iff sh.state 1).1 e)), λ e. omega (arith, e))
  ]
]

put-Settled :
    (rm : RegionMgr) (i : ℕ)
    → i < length rm.rg
    → Settled rm (store_region rm i (settled (rg_at rm i)))
put-Settled rm i l =
    let sh : RegionHdrSh = settled (rg_at rm i) in
    let f = store_region-Same rm i sh in
    let at : state_at (store_region rm i sh) i ≡ sh.state =
      ap (λ (x : RegionHdrSh). x.state) (store_region_at rm i sh l) in
    let (keep, none_new) = settled_open (rg_at rm i) in
    record {
      len = f.len;
      keeps = λ k e. elim (ℕ_discrete k i) [
        | yes same ↦
            ap (state_at (store_region rm i sh)) same ∙ at ∙ keep (sym (ap (state_at rm) same) ∙ e)
        | no other ↦ f.states k other ∙ e
      ];
      adds_none = λ k e. elim (ℕ_discrete k i) [
        | yes same ↦
            ap (state_at rm) same
            ∙ none_new (sym at ∙ sym (ap (state_at (store_region rm i sh)) same) ∙ e)
        | no other ↦ sym (f.states k other) ∙ e
      ];
    }

settle_regions-Settled :
    (n i : ℕ) (rm : RegionMgr) → n + i ≤ length rm.rg → Settled rm (settle_regions n i rm)
unfolding settle_regions
settle_regions-Settled zero i rm l = record { len = refl; keeps = λ k e. e; adds_none = λ k e. e }
settle_regions-Settled (suc n) i rm l =
    let one = put-Settled rm i (omega (arith, l)) in
    let rest =
      settle_regions-Settled n (i + 1) (store_region rm i (settled (rg_at rm i)))
        (omega (arith, l, one.len)) in
    record {
      len = rest.len ∙ one.len;
      keeps = λ k e. rest.keeps k (one.keeps k e);
      adds_none = λ k e. one.adds_none k (rest.adds_none k e);
    }

-- region `v` of those from index `i` on is frozen
IsFrozenAt : ℕ → List RegionHdrSh → ℕ → Type 0
IsFrozenAt i rg v =
    (d : ℕ) × (v ≡ i + d) × (d < length rg) × ((get_or rg d fresh_region).state ≡ kv_rg_frozen)

IsFrozenAt-later :
    (i v : ℕ) (sh : RegionHdrSh) (rg : List RegionHdrSh)
    → IsFrozenAt (i + 1) rg v
    → IsFrozenAt i (sh ∷ rg) v
unfolding IsFrozenAt
IsFrozenAt-later i v sh rg (d, e, l, s) = (suc d, omega (arith, e), omega (arith, l), s)

oldest-IsFrozenAt :
    (i v : ℕ) (rg : List RegionHdrSh) (oldest : ℕ) (before : Option ℕ)
    → oldest_frozen i rg oldest before ≡ some v
    → (before ≡ some v) ⊎ IsFrozenAt i rg v
unfolding oldest_frozen IsFrozenAt
oldest-IsFrozenAt i v [] oldest before e = inl e
oldest-IsFrozenAt i v (sh ∷ rg) oldest before e =
    elim (Bool-cases (sh.state == kv_rg_frozen && not (sh.epoch == 0) && ltb sh.epoch oldest)) [
      | inl t ↦
          let e' : oldest_frozen (i + 1) rg sh.epoch (some i) ≡ some v = rw t at e in
          elim (oldest-IsFrozenAt (i + 1) v rg sh.epoch (some i) e') [
            | inl here ↦
                let at : i ≡ v = cc here in
                inr (0, omega (arith, at), omega arith, ground (arith, t))
            | inr f ↦ inr (IsFrozenAt-later i v sh rg f)
          ]
      | inr t ↦
          let e' : oldest_frozen (i + 1) rg oldest before ≡ some v = rw t at e in
          elim (oldest-IsFrozenAt (i + 1) v rg oldest before e') [
            | inl b ↦ inl b
            | inr f ↦ inr (IsFrozenAt-later i v sh rg f)
          ]
    ]

-- the region to open was not open, unless all were
record Chosen (rm : RegionMgr) (r : RegionMgr × ℕ) : Type 0 where
  len : length r.0.rg ≡ length rm.rg
  states : (i : ℕ) → state_at r.0 i ≡ state_at rm i
  below : r.1 < length rm.rg
  closed : (state_at rm r.1 ≢ kv_rg_open) ⊎ (r.1 ≡ 0)

choose_open-Chosen :
    (dropped : ℕ → RegionMgr → ℕ → ℤ) (rm : RegionMgr)
    → 1 ≤ length rm.rg
    → Chosen rm (choose_open dropped rm)
unfolding choose_open next_free IsFrozenAt
choose_open-Chosen dropped rm one = elim (next_free_lem rm) [
  | inr (d, e, l, f, _) ↦
      rw (e, choose_open)
        (record {
          len = refl;
          states = λ i. refl;
          below = l;
          closed = inl (λ o. omega (arith, f, o));
        })
  | inl (e, _) ↦ elim (Option-cases (oldest_frozen 0 rm.rg (2 ^ 64 - 1) none)) [
    | inl n ↦
        rw (e, n, choose_open)
          (record { len = refl; states = λ i. refl; below = omega (arith, one); closed = inr refl })
    | inr (v, n) ↦ elim (oldest-IsFrozenAt 0 v rm.rg (2 ^ 64 - 1) none n) [
      | inl b ↦ absurd (cc b)
      | inr (d, at, l, f) ↦
          let here : state_at rm v ≡ kv_rg_frozen = ap (state_at rm) (omega (arith, at)) ∙ f in
          rw (e, n, choose_open)
            (record {
              len = with_live-length (dropped v rm) 0 rm.rg;
              states = λ i. with_live-state (dropped v rm) 0 i rm.rg;
              below = omega (arith, at, l);
              closed = inl (λ o. omega (arith, here, o));
            })
    ]
  ]
]

-- When a cache of at least one region is opened again, every region that was open stays open;
-- the region of the cursor is open too, and it was not open before unless it is region 0.
pub reopen_keeps_open :
    (dropped : ℕ → RegionMgr → ℕ → ℤ) (rm : RegionMgr) (now_s : ℕ)
    → rm.region_cnt ≡ length rm.rg
    → 1 ≤ rm.region_cnt
    → (state_at (reopen dropped rm now_s).0 (reopen dropped rm now_s).1 ≡ kv_rg_open)
      × ((state_at rm (reopen dropped rm now_s).1 ≢ kv_rg_open) ⊎ ((reopen dropped rm now_s).1 ≡ 0))
      × ((i : ℕ) → state_at rm i ≡ kv_rg_open → state_at (reopen dropped rm now_s).0 i ≡ kv_rg_open)
unfolding reopen
reopen_keeps_open dropped rm now_s c one =
    let rm₁ : RegionMgr = settle_regions rm.region_cnt 0 rm in
    let s = settle_regions-Settled rm.region_cnt 0 rm (omega (arith, c)) in
    let r : RegionMgr × ℕ = choose_open dropped rm₁ in
    let o : Chosen rm₁ r = choose_open-Chosen dropped rm₁ (omega (arith, c, one, s.len)) in
    let p : IsOpened r.1 now_s r.0 (open_region r.0 r.1 now_s) =
      open_region-IsOpened r.0 r.1 now_s (omega (arith, o.below, o.len)) in
    let at : state_at (open_region r.0 r.1 now_s) r.1 ≡ kv_rg_open =
      ap (λ (x : RegionHdrSh). x.state) p.at in
    (
      at,
      elim o.closed [ inl n ↦ inl (λ e. n (s.keeps r.1 e)) | inr z ↦ inr z ],
      λ i e. elim (ℕ_discrete i r.1) [
        | yes same ↦ ap (state_at (open_region r.0 r.1 now_s)) same ∙ at
        | no other ↦ p.states i other ∙ o.states i ∙ s.keeps i e
      ],
    )
