-- ===== src/Radix/Edges.antt =====
-- The tests on an edge in src/radix.cpp, and the loops over an array of edges.
use kvtier.Prelude.{
  ℕ, zero, suc, ◌<◌, ◌≤◌, ◌≡◌, ◌≢◌, refl, ap, true, false, none, some, Bool, List, [], ◌∷◌, ◌==◌,
  ==_iff, if◌then◌else◌, length, get_or, take, set, replicate, ◌⊎◌, inl, inr, Bool-cases,
  Option-cases, arith,
}
use kvtier.Radix.{
  RadixEdge, no_edge, edge_free, edge_is, edge_deleted, ovf_stops, first_slot, live_edges,
}

pub edge_free-hash : (e : RadixEdge) → edge_free e ≡ true → e.child_hash ≡ 0
edge_free-hash e t = (==_iff e.child_hash 0).0 t

pub edge_free_hash : (e : RadixEdge) → e.child_hash ≡ 0 → edge_free e ≡ true
edge_free_hash e t = (==_iff e.child_hash 0).1 t

pub edge_free-false : (e : RadixEdge) → e.child_hash ≢ 0 → edge_free e ≡ false
edge_free-false e n = elim (Bool-cases (edge_free e)) [
  | inl t ↦ absurd (n (edge_free-hash e t))
  | inr f ↦ f
]

pub edge_is-hash : (h : ℕ) (e : RadixEdge) → edge_is h e ≡ true → e.child_hash ≡ h
edge_is-hash h e t = elim (Bool-cases (e.child_hash == h)) [
  | inl g ↦ (==_iff e.child_hash h).0 g
  | inr g ↦ absurd (let t' : false ≡ true = rw g at t in cc t')
]

pub edge_is_self :
    (h : ℕ) (e : RadixEdge) → e.child_hash ≡ h → edge_deleted e ≡ false → edge_is h e ≡ true
edge_is_self h e q d =
    let g : (e.child_hash == h) ≡ true = (==_iff e.child_hash h).1 q in rw (g, d) refl

pub ovf_stops_free : (h : ℕ) (e : RadixEdge) → edge_free e ≡ true → ovf_stops h e ≡ true
ovf_stops_free h e t = rw t refl

pub ovf_stops_self : (h : ℕ) (e : RadixEdge) → edge_is h e ≡ true → ovf_stops h e ≡ true
ovf_stops_self h e t = elim (Bool-cases (edge_free e)) [
  | inl f ↦ rw f refl
  | inr f ↦ rw (f, t) refl
]

pub ovf_stops-cases :
    (h : ℕ) (e : RadixEdge) → ovf_stops h e ≡ true → (edge_free e ≡ true) ⊎ (e.child_hash ≡ h)
ovf_stops-cases h e t = elim (Bool-cases (edge_free e)) [
  | inl f ↦ inl f
  | inr f ↦ let t' : edge_is h e ≡ true = rw f at t in inr (edge_is-hash h e t')
]

-- the number of slots that are not free
abbrev pub used_slots : List RadixEdge → ℕ
used_slots [] = 0
used_slots (e ∷ es) = if edge_free e then used_slots es else suc (used_slots es)

pub used_slots-le : (es : List RadixEdge) → used_slots es ≤ length es
used_slots-le [] = omega arith
used_slots-le (e ∷ es) = elim (Bool-cases (edge_free e)) [
  | inl t ↦ rw t (omega (arith, used_slots-le es))
  | inr t ↦ rw t (omega (arith, used_slots-le es))
]

pub used_slots-replicate : (n : ℕ) → used_slots (replicate n no_edge) ≡ 0
used_slots-replicate zero = refl
used_slots-replicate (suc n) = used_slots-replicate n

pub used_slots-set :
    (es : List RadixEdge) (i : ℕ) (e : RadixEdge) → used_slots (set es i e) ≤ suc (used_slots es)
used_slots-set [] i e = omega arith
used_slots-set (x ∷ es) zero e = elim (Bool-cases (edge_free e)) [
  | inl t ↦ elim (Bool-cases (edge_free x)) [
    | inl u ↦ rw (t, u) (omega arith)
    | inr u ↦ rw (t, u) (omega arith)
  ]
  | inr t ↦ elim (Bool-cases (edge_free x)) [
    | inl u ↦ rw (t, u) (omega arith)
    | inr u ↦ rw (t, u) (omega arith)
  ]
]
used_slots-set (x ∷ es) (suc i) e = elim (Bool-cases (edge_free x)) [
  | inl t ↦ rw t (used_slots-set es i e)
  | inr t ↦ rw t (omega (arith, used_slots-set es i e))
]

pub used_slots-take_le : (n : ℕ) (es : List RadixEdge) → used_slots (take n es) ≤ n
used_slots-take_le zero es = omega arith
used_slots-take_le (suc n) [] = omega arith
used_slots-take_le (suc n) (e ∷ es) = elim (Bool-cases (edge_free e)) [
  | inl t ↦ rw t (omega (arith, used_slots-take_le n es))
  | inr t ↦ rw t (omega (arith, used_slots-take_le n es))
]

pub used_slots-take_more :
    (n : ℕ) (es : List RadixEdge) → used_slots (take n es) ≤ used_slots (take (suc n) es)
used_slots-take_more zero es = omega arith
used_slots-take_more (suc n) [] = omega arith
used_slots-take_more (suc n) (e ∷ es) = elim (Bool-cases (edge_free e)) [
  | inl t ↦ rw t (used_slots-take_more n es)
  | inr t ↦ rw t (omega (arith, used_slots-take_more n es))
]

pub used_slots-take-suc :
    (n : ℕ) (es : List RadixEdge)
    → edge_free (get_or es n no_edge) ≡ false
    → used_slots (take (suc n) es) ≡ suc (used_slots (take n es))
used_slots-take-suc n [] f = absurd (cc f)
used_slots-take-suc zero (e ∷ es) f = rw f refl
used_slots-take-suc (suc n) (e ∷ es) f = elim (Bool-cases (edge_free e)) [
  | inl t ↦ rw t (used_slots-take-suc n es f)
  | inr t ↦ rw t (ap suc (used_slots-take-suc n es f))
]

-- without a deleted edge, the slots that are not free are the live ones
pub used_slots-live :
    (es : List RadixEdge)
    → ((i : ℕ) → edge_deleted (get_or es i no_edge) ≡ false)
    → live_edges es ≡ used_slots es
unfolding live_edges
used_slots-live [] a = refl
used_slots-live (e ∷ es) a =
    let d = a 0 in
    let rest = used_slots-live es (λ i. a (suc i)) in
    elim (Bool-cases (edge_free e)) [ inl t ↦ rw t rest | inr t ↦ rw (t, d) (ap suc rest) ]

-- an array that is not full has a free slot
pub used_slots-free :
    (es : List RadixEdge)
    → used_slots es < length es
    → (i : ℕ) × (i < length es) × (edge_free (get_or es i no_edge) ≡ true)
used_slots-free [] l = absurd (omega (arith, l))
used_slots-free (e ∷ es) l = elim (Bool-cases (edge_free e)) [
  | inl t ↦ (0, omega arith, t)
  | inr t ↦
      let l' : suc (used_slots es) < suc (length es) = rw t at l in
      let (i, b, f) = used_slots-free es (omega (arith, l')) in (suc i, omega (arith, b), f)
]

pub first_slot-some :
    (test : RadixEdge → Bool) (es : List RadixEdge) {i : ℕ}
    → first_slot test es ≡ some i
    → (i < length es) × (test (get_or es i no_edge) ≡ true)
unfolding first_slot
first_slot-some test [] e = absurd (cc e)
first_slot-some test (x ∷ es) {i = i} e = elim (Bool-cases (test x)) [
  | inl t ↦
      let e' : some zero ≡ some i = rw t at e in
      let at : i ≡ 0 = cc e' in (omega (arith, at), rw at t)
  | inr t ↦ elim (Option-cases (first_slot test es)) [
    | inl f ↦ absurd (let e' : none ≡ some i = rw (t, f) at e in cc e')
    | inr (k, f) ↦
        let e' : some (suc k) ≡ some i = rw (t, f) at e in
        let at : i ≡ suc k = cc e' in
        let (l, g) = first_slot-some test es f in (omega (arith, at, l), rw at g)
  ]
]

pub first_slot-none :
    (test : RadixEdge → Bool) (es : List RadixEdge)
    → first_slot test es ≡ none
    → test no_edge ≡ false
    → (j : ℕ) → test (get_or es j no_edge) ≡ false
unfolding first_slot
first_slot-none test [] e d j = d
first_slot-none test (x ∷ es) e d j = elim (Bool-cases (test x)) [
  | inl t ↦ absurd (let e' : some zero ≡ none = rw t at e in cc e')
  | inr t ↦ elim (Option-cases (first_slot test es)) [
    | inl f ↦ elim j as (λ m. test (get_or (x ∷ es) m no_edge) ≡ false) [
      | zero ↦ t
      | suc k ↦ first_slot-none test es f d k
    ]
    | inr (k, f) ↦ absurd (let e' : some (suc k) ≡ none = rw (t, f) at e in cc e')
  ]
]
