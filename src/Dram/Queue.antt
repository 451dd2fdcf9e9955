-- ===== src/Dram/Queue.antt =====
-- The queue of a shard in src/dram.cpp: what `unlink` and `snext` do to sums over its entries.
use kvtier.Prelude.{
  ℕ, ◌+◌, ◌≡◌, ◌≢◌, refl, ◌∙◌, ap, sym, subst, true, none, some, List, [], ◌∷◌, ◌++◌, ◌==◌, ==_iff,
  ◌⊎◌, inl, inr, Bool-cases, arith,
}
use kvtier.Dram.{snext, unlink}

abbrev pub Mem : ℕ → List ℕ → Type 0
Mem p [] = ⊥
Mem p (x ∷ xs) = (x ≡ p) ⊎ Mem p xs

abbrev pub NoDup : List ℕ → Type 0
NoDup [] = Unit
NoDup (x ∷ xs) = (Mem x xs → ⊥) × NoDup xs

abbrev pub sum_of : (ℕ → ℕ) → List ℕ → ℕ
sum_of f [] = 0
sum_of f (x ∷ xs) = f x + sum_of f xs

pub unlink-Mem : (p q : ℕ) (xs : List ℕ) → Mem q (unlink p xs) → Mem q xs
unfolding unlink
unlink-Mem p q [] m = m
unlink-Mem p q (x ∷ xs) m = elim (Bool-cases (x == p)) [
  | inl t ↦ (let m' : Mem q xs = rw t at m in inr m')
  | inr t ↦
      let m' : (x ≡ q) ⊎ Mem q (unlink p xs) = rw t at m in
      elim m' [ inl e ↦ inl e | inr r ↦ inr (unlink-Mem p q xs r) ]
]

pub unlink_other : (p q : ℕ) (xs : List ℕ) → p ≢ q → Mem q xs → Mem q (unlink p xs)
unfolding unlink
unlink_other p q [] ne m = m
unlink_other p q (x ∷ xs) ne m = elim (Bool-cases (x == p)) [
  | inl t ↦ elim m [ inl e ↦ absurd (ne (sym ((==_iff x p).0 t) ∙ e)) | inr r ↦ rw t r ]
  | inr t ↦ elim m [ inl e ↦ rw t (inl e) | inr r ↦ rw t (inr (unlink_other p q xs ne r)) ]
]

pub unlink-NoDup : (p : ℕ) (xs : List ℕ) → NoDup xs → NoDup (unlink p xs)
unfolding unlink
unlink-NoDup p [] w = w
unlink-NoDup p (x ∷ xs) (n, w) = elim (Bool-cases (x == p)) [
  | inl t ↦ rw t w
  | inr t ↦ rw t (λ m. n (unlink-Mem p x xs m), unlink-NoDup p xs w)
]

pub unlink_gone : (p : ℕ) (xs : List ℕ) → NoDup xs → Mem p (unlink p xs) → ⊥
unfolding unlink
unlink_gone p [] w m = m
unlink_gone p (x ∷ xs) (n, w) m = elim (Bool-cases (x == p)) [
  | inl t ↦
      let e : x ≡ p = (==_iff x p).0 t in
      let m' : Mem p xs = rw t at m in n (subst (λ (y : ℕ). Mem y xs) (sym e) m')
  | inr t ↦
      let m' : (x ≡ p) ⊎ Mem p (unlink p xs) = rw t at m in
      elim m' [ inl e ↦ cc (t, (==_iff x p).1 e) | inr r ↦ unlink_gone p xs w r ]
]

pub sum_of-unlink :
    (f : ℕ → ℕ) (p : ℕ) (xs : List ℕ) → Mem p xs → sum_of f xs ≡ f p + sum_of f (unlink p xs)
unfolding unlink
sum_of-unlink f p [] m = absurd m
sum_of-unlink f p (x ∷ xs) m = elim (Bool-cases (x == p)) [
  | inl t ↦ let e : x ≡ p = (==_iff x p).0 t in rw t (ap (λ (y : ℕ). f y + sum_of f xs) e)
  | inr t ↦ elim m [
    | inl e ↦ absurd (cc (t, (==_iff x p).1 e))
    | inr r ↦ rw t (omega (arith, sum_of-unlink f p xs r))
  ]
]

pub sum_of_ext :
    (f g : ℕ → ℕ) (xs : List ℕ) → ((q : ℕ) → Mem q xs → f q ≡ g q) → sum_of f xs ≡ sum_of g xs
sum_of_ext f g [] w = refl
sum_of_ext f g (x ∷ xs) w = omega (arith, w x (inl refl), sum_of_ext f g xs (λ q m. w q (inr m)))

pub sum_of-append :
    (f : ℕ → ℕ) (xs : List ℕ) (p : ℕ) → sum_of f (xs ++ (p ∷ [])) ≡ sum_of f xs + f p
sum_of-append f [] p = omega arith
sum_of-append f (x ∷ xs) p = omega (arith, sum_of-append f xs p)

pub append-Mem : (q p : ℕ) (xs : List ℕ) → Mem q (xs ++ (p ∷ [])) → Mem q xs ⊎ (p ≡ q)
append-Mem q p [] m = elim m [ inl e ↦ inr e | inr r ↦ absurd r ]
append-Mem q p (x ∷ xs) m = elim m [
  | inl e ↦ inl (inl e)
  | inr r ↦ elim (append-Mem q p xs r) [ inl s ↦ inl (inr s) | inr s ↦ inr s ]
]

pub append-Mem_old : (q p : ℕ) (xs : List ℕ) → Mem q xs → Mem q (xs ++ (p ∷ []))
append-Mem_old q p [] m = absurd m
append-Mem_old q p (x ∷ xs) m = elim m [ inl e ↦ inl e | inr r ↦ inr (append-Mem_old q p xs r) ]

pub append-Mem_new : (p : ℕ) (xs : List ℕ) → Mem p (xs ++ (p ∷ []))
append-Mem_new p [] = inl refl
append-Mem_new p (x ∷ xs) = inr (append-Mem_new p xs)

pub append-NoDup : (p : ℕ) (xs : List ℕ) → (Mem p xs → ⊥) → NoDup xs → NoDup (xs ++ (p ∷ []))
append-NoDup p [] n w = (λ m. m, tt)
append-NoDup p (x ∷ xs) n (a, w) = (
  λ m. elim (append-Mem x p xs m) [ inl r ↦ a r | inr e ↦ n (inl (sym e)) ],
  append-NoDup p xs (λ m. n (inr m)) w,
)

pub snext-Mem : (p y : ℕ) (xs : List ℕ) → snext p xs ≡ some y → Mem y xs
unfolding snext
snext-Mem p y [] e = absurd (cc e)
snext-Mem p y (x ∷ []) e = elim (Bool-cases (x == p)) [
  | inl t ↦ absurd (let e' : none ≡ some y = rw t at e in cc e')
  | inr t ↦ absurd (let e' : none ≡ some y = rw t at e in cc e')
]
snext-Mem p y (x ∷ z ∷ xs) e = elim (Bool-cases (x == p)) [
  | inl t ↦ (let e' : some z ≡ some y = rw t at e in inr (inl (cc e')))
  | inr t ↦ (let e' : snext p (z ∷ xs) ≡ some y = rw t at e in inr (snext-Mem p y (z ∷ xs) e'))
]

pub snext_ne : (p y : ℕ) (xs : List ℕ) → NoDup xs → snext p xs ≡ some y → p ≢ y
unfolding snext
snext_ne p y [] w e = absurd (cc e)
snext_ne p y (x ∷ []) w e = elim (Bool-cases (x == p)) [
  | inl t ↦ absurd (let e' : none ≡ some y = rw t at e in cc e')
  | inr t ↦ absurd (let e' : none ≡ some y = rw t at e in cc e')
]
snext_ne p y (x ∷ z ∷ xs) (n, w) e = elim (Bool-cases (x == p)) [
  | inl t ↦
      let a : x ≡ p = (==_iff x p).0 t in
      let e' : some z ≡ some y = rw t at e in
      let b : z ≡ y = cc e' in λ q. n (inl (b ∙ sym q ∙ sym a))
  | inr t ↦ let e' : snext p (z ∷ xs) ≡ some y = rw t at e in snext_ne p y (z ∷ xs) w e'
]

-- the first entry is the last one when there is none after it
pub snext_last : (p : ℕ) (xs : List ℕ) → snext p (p ∷ xs) ≡ none → xs ≡ []
unfolding snext
snext_last p [] e = refl
snext_last p (z ∷ xs) e =
    let t : (p == p) ≡ true = (==_iff p p).1 refl in
    let e' : some z ≡ none = rw t at e in absurd (cc e')
