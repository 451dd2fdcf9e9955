-- ===== src/Gc/Victim.antt =====
-- What `cache_force_free_region` of src/gc.cpp may trim.
use kvtier.Prelude.{
  ℕ, suc, ◌+◌, ◌-◌, ◌^◌, ◌<◌, ◌≡◌, ◌∙◌, ap, sym, false, ◌||◌, ◌&&◌, ◌⊎◌, inl, inr, Option, none,
  some, List, [], ◌∷◌, ◌==◌, length, get_or, ℤ, pos, eq_ℤ, Bool-cases, Option-cases, arith,
}
use kvtier.Region.{RegionHdrSh, RegionMgr, fresh_region, kv_rg_free, kv_rg_frozen}
use kvtier.Gc.{is_avoided, lt_ℤ, empty_region, least_live, freed_region}

-- region `v` of those from index `i` on is frozen, and is not the one to avoid
abbrev pub IsVictim : Option ℕ → ℕ → List RegionHdrSh → ℕ → Type 0
IsVictim avoid i rg v =
    (d : ℕ) × (v ≡ i + d)
    × (d < length rg)
    × ((get_or rg d fresh_region).state ≡ kv_rg_frozen)
    × (is_avoided avoid v ≡ false)

later :
    (avoid : Option ℕ) (i v : ℕ) (sh : RegionHdrSh) (rg : List RegionHdrSh)
    → IsVictim avoid (i + 1) rg v
    → IsVictim avoid i (sh ∷ rg) v
later avoid i v sh rg (d, e, l, s, a) = (suc d, omega (arith, e), omega (arith, l), s, a)

here :
    (avoid : Option ℕ) (i v : ℕ) (sh : RegionHdrSh) (rg : List RegionHdrSh)
    → i ≡ v
    → sh.state ≡ kv_rg_frozen
    → is_avoided avoid i ≡ false
    → IsVictim avoid i (sh ∷ rg) v
here avoid i v sh rg e s a =
    (0, omega (arith, e), omega arith, s, ap (is_avoided avoid) (sym e) ∙ a)

empty-IsVictim :
    (avoid : Option ℕ) (i v : ℕ) (rg : List RegionHdrSh)
    → empty_region avoid i rg ≡ some v
    → IsVictim avoid i rg v
unfolding empty_region
empty-IsVictim avoid i v [] e = absurd (cc e)
empty-IsVictim avoid i v (sh ∷ rg) e =
    elim (Bool-cases (is_avoided avoid i || sh.state == kv_rg_free)) [
      | inl a ↦
          let e' : empty_region avoid (i + 1) rg ≡ some v = rw a at e in
          later avoid i v sh rg (empty-IsVictim avoid (i + 1) v rg e')
      | inr a ↦ elim (Bool-cases (sh.state == kv_rg_frozen && eq_ℤ sh.live_bytes (pos 0))) [
        | inl b ↦
            let e' : some i ≡ some v = rw (a, b) at e in
            here avoid i v sh rg (cc e') (ground (arith, b)) (ground (arith, a))
        | inr b ↦
            let e' : empty_region avoid (i + 1) rg ≡ some v = rw (a, b) at e in
            later avoid i v sh rg (empty-IsVictim avoid (i + 1) v rg e')
      ]
    ]

pass :
    (avoid : Option ℕ) (i v : ℕ) (sh : RegionHdrSh) (rg : List RegionHdrSh) {victim : Option ℕ}
    → (victim ≡ some v) ⊎ IsVictim avoid (i + 1) rg v
    → (victim ≡ some v) ⊎ IsVictim avoid i (sh ∷ rg) v
pass avoid i v sh rg (inl f) = inl f
pass avoid i v sh rg (inr f) = inr (later avoid i v sh rg f)

least-IsVictim :
    (avoid : Option ℕ) (i v : ℕ) (rg : List RegionHdrSh) (best : ℤ) (victim : Option ℕ)
    → least_live avoid i rg best victim ≡ some v
    → (victim ≡ some v) ⊎ IsVictim avoid i rg v
unfolding least_live
least-IsVictim avoid i v [] best victim e = inl e
least-IsVictim avoid i v (sh ∷ rg) best victim e =
    elim (Bool-cases (is_avoided avoid i || sh.state == kv_rg_free)) [
      | inl a ↦
          let e' : least_live avoid (i + 1) rg best victim ≡ some v = rw a at e in
          pass avoid i v sh rg (least-IsVictim avoid (i + 1) v rg best victim e')
      | inr a ↦ elim (Bool-cases (sh.state == kv_rg_frozen && lt_ℤ sh.live_bytes best)) [
        | inr b ↦
            let e' : least_live avoid (i + 1) rg best victim ≡ some v = rw (a, b) at e in
            pass avoid i v sh rg (least-IsVictim avoid (i + 1) v rg best victim e')
        | inl b ↦
            let e' : least_live avoid (i + 1) rg sh.live_bytes (some i) ≡ some v = rw (a, b) at e in
            elim (least-IsVictim avoid (i + 1) v rg sh.live_bytes (some i) e') [
              | inl f ↦ inr (here avoid i v sh rg (cc f) (ground (arith, b)) (ground (arith, a)))
              | inr f ↦ inr (later avoid i v sh rg f)
            ]
      ]
    ]

-- The region that cache_force_free_region trims is in range, frozen, and not the one to avoid.
pub freed_region-IsVictim :
    (rm : RegionMgr) (avoid : Option ℕ) (v : ℕ)
    → freed_region rm avoid ≡ some v
    → IsVictim avoid 0 rm.rg v
unfolding freed_region
freed_region-IsVictim rm avoid v e = elim (Option-cases (empty_region avoid 0 rm.rg)) [
  | inr (i, f) ↦
      let e' : some i ≡ some v = rw (f, freed_region) at e in
      empty-IsVictim avoid 0 v rm.rg (f ∙ e')
  | inl f ↦
      let e' : least_live avoid 0 rm.rg (pos (2 ^ 63 - 1)) none ≡ some v =
        rw (f, freed_region) at e in
      elim (least-IsVictim avoid 0 v rm.rg (pos (2 ^ 63 - 1)) none e') [
        | inl g ↦ absurd (cc g)
        | inr g ↦ g
      ]
]
