-- ===== src/Cache/Publish.antt =====
-- `leaf_journal` of src/cache.cpp: the journal record of a published leaf, and the wish for a
-- checkpoint that a full journal is meant to raise.
use kvtier.Prelude.{
  ℕ, suc, ◌+◌, ◌≡◌, refl, Bool, true, false, ◌&&◌, bit_or, Option, none, some, List, [], ◌∷◌, ◌==◌,
  if◌then◌else◌, length, ℤ, neg, eq_ℤ, Bool-cases, inl, inr, leb, ltb,
}
use kvtier.Common.{u16, u64, kv_eok, kv_efull}
use kvtier.Device.{Device, write_page}
use kvtier.Cache.Shapes.{Shape}
use kvtier.Journal.{Journal, Addr, JournalRec, jrec_total, kv_jflag_uniform}
use kvtier.Journal.Log.{
  PutArgs, journal_put, journal_append, journal_store, journal_next_page, journal_flush_page,
  sealed,
}

-- `uni`: every length is the first one
unfoldable pub all_equal : ℕ → List ℕ → Bool
all_equal x [] = true
all_equal x (y ∷ ys) = y == x && all_equal x ys

-- the call of `journal_put` for a shape of these lengths: one length stands for equal ones
unfoldable pub lens_put : Journal → PutArgs → Option Addr → List ℕ → List ℕ → Journal × ℤ
lens_put j a addr [] path = journal_put j (record a { n_recs = 0 }) addr [] path
lens_put j a addr (x ∷ xs) path =
    let n = u16 (suc (length xs)) in
    if all_equal x xs
    then journal_put j (record a { n_recs = n; flags = bit_or a.flags kv_jflag_uniform }) addr
        (x ∷ []) path
    else journal_put j (record a { n_recs = n }) addr (x ∷ xs) path

unfoldable pub shape_put : Journal → PutArgs → Option Addr → Option Shape → List ℕ → Journal × ℤ
shape_put j a addr none path = lens_put j a addr [] path
shape_put j a addr (some s) path = lens_put j a addr s.lens path

-- the journal and `ckpt_wanted` afterwards
unfoldable pub leaf_journal :
    Journal → Bool → PutArgs → Option Addr → Option Shape → List ℕ → Journal × Bool
leaf_journal j ckpt_wanted a addr shape path =
    let (j', rc) = shape_put j a addr shape path in
    (j', if eq_ℤ rc (neg kv_efull) then true else ckpt_wanted)

-- no write of the device answers 8, which is `-KV_EFULL`
abbrev pub NoEfull : Device → Type 0
NoEfull d = (p : ℕ) → eq_ℤ (d.write_rc p) (neg kv_efull) ≡ false

flush_page_code :
    (j : Journal) → NoEfull j.dev → eq_ℤ (journal_flush_page j).1 (neg kv_efull) ≡ false
unfolding journal_flush_page write_page
flush_page_code j d = elim (Bool-cases (j.cur_off == 0)) [
  | inl z ↦ rw z refl
  | inr z ↦ rw z (d (u64 (j.journal_page + j.cur_page)))
]

next_page_code : (j : Journal) → NoEfull j.dev → eq_ℤ (journal_next_page j).1 (neg kv_efull) ≡ false
unfolding journal_next_page
next_page_code j d = elim (Bool-cases (eq_ℤ (journal_flush_page j).1 kv_eok)) [
  | inl z ↦ rw z refl
  | inr z ↦ rw z (flush_page_code j d)
]

append_code :
    (j : Journal) (r : JournalRec) (data_crc : ℕ) (lens path : List ℕ)
    → NoEfull j.dev
    → eq_ℤ (journal_append j r data_crc lens path).1 (neg kv_efull) ≡ false
unfolding journal_append journal_store
append_code j r data_crc lens path d =
    let total = jrec_total (sealed j r data_crc lens path) in
    let j' = (journal_next_page j).0 in
    elim (Bool-cases (ltb 4096 total)) [
      | inl a ↦ rw a refl
      | inr a ↦ elim (Bool-cases (leb j.journal_pages j.cur_page)) [
        | inl b ↦ rw (a, b) refl
        | inr b ↦ elim (Bool-cases (ltb 4096 (j.cur_off + total))) [
          | inr c ↦ rw (a, b, c) refl
          | inl c ↦ elim (Bool-cases (eq_ℤ (journal_next_page j).1 kv_eok)) [
            | inr e ↦ rw (a, b, c, e) (next_page_code j d)
            | inl e ↦ elim (Bool-cases (leb j'.journal_pages j'.cur_page)) [
              | inl f ↦ rw (a, b, c, e, f) refl
              | inr f ↦ rw (a, b, c, e, f) refl
            ]
          ]
        ]
      ]
    ]

put_code :
    (j : Journal) (a : PutArgs) (addr : Option Addr) (lens path : List ℕ)
    → NoEfull j.dev
    → eq_ℤ (journal_put j a addr lens path).1 (neg kv_efull) ≡ false
unfolding journal_put
put_code j a none lens path d = append_code j _ 0 lens path d
put_code j a (some addr) lens path d = append_code j _ addr.crc lens path d

lens_put_code :
    (j : Journal) (a : PutArgs) (addr : Option Addr) (lens path : List ℕ)
    → NoEfull j.dev
    → eq_ℤ (lens_put j a addr lens path).1 (neg kv_efull) ≡ false
unfolding lens_put
lens_put_code j a addr [] path d = put_code j _ addr [] path d
lens_put_code j a addr (x ∷ xs) path d = elim (Bool-cases (all_equal x xs)) [
  | inl e ↦ rw e (put_code j _ addr (x ∷ []) path d)
  | inr e ↦ rw e (put_code j _ addr (x ∷ xs) path d)
]

shape_put_code :
    (j : Journal) (a : PutArgs) (addr : Option Addr) (shape : Option Shape) (path : List ℕ)
    → NoEfull j.dev
    → eq_ℤ (shape_put j a addr shape path).1 (neg kv_efull) ≡ false
unfolding shape_put
shape_put_code j a addr none path d = lens_put_code j a addr [] path d
shape_put_code j a addr (some s) path d = lens_put_code j a addr s.lens path d

-- leaf_journal leaves ckpt_wanted as it is, also when the journal is full and drops the record,
-- unless a write of the device answers 8, which is -KV_EFULL.
pub leaf_journal_unasked :
    (j : Journal) (ckpt_wanted : Bool) (a : PutArgs) (addr : Option Addr) (shape : Option Shape)
    (path : List ℕ)
    → NoEfull j.dev
    → (leaf_journal j ckpt_wanted a addr shape path).1 ≡ ckpt_wanted
unfolding leaf_journal
leaf_journal_unasked j ckpt_wanted a addr shape path d =
    rw (shape_put_code j a addr shape path d) refl
