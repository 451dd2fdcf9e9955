-- ===== src/Writer/Batch/Placed.antt =====
-- Where `writer_submit_batch` of src/writer.cpp puts the requests of a batch.
use kvtier.Prelude.{
  ℕ, zero, ◌+◌, ◌-◌, ◌*◌, ◌^◌, ◌≤◌, ◌<◌, ◌≡◌, refl, sym, ap, ◌∙◌, subst, Bool-cases, List, [], ◌∷◌,
  ◌++◌, length, length-append, length-replicate, take, drop, drop_append, take_append, replicate,
  inl, inr, arith,
}
use native.Mathlib.Nat.{mod-eq_of_lt}
use kvtier.Common.{u32}
use kvtier.Chunk.{payload_npages}
use kvtier.Writer.Batch.{PutReq, is_part, put_bytes, pad_pages, place_req, place_reqs, need_pages}

-- what the lengths of a request say: a part of a stripe has that many bytes, the records add up
pub record Sized (r : PutReq) : Type 0 where
  pub small : r.data_len < 2 ^ 32
  pub bytes : length (put_bytes r) ≡ r.data_len

abbrev pub AllSized : List PutReq → Type 0
AllSized [] = Unit
AllSized (r ∷ rs) = Sized r × AllSized rs

-- The requests `rs` as `rs'`, one after the other from page `abs_page` on, their bytes in `buf`.
abbrev pub IsPlaced : ℕ → List PutReq → List PutReq → List ℕ → Type 0
IsPlaced abs_page [] [] buf = Unit
IsPlaced abs_page [] (_ ∷ _) buf = ⊥
IsPlaced abs_page (_ ∷ _) [] buf = ⊥
IsPlaced abs_page (r ∷ rs) (r' ∷ rs') buf =
    (r'.page_no ≡ abs_page)
    × (r.data_len ≤ r'.npages * 4096)
    × (r'.npages * 4096 < r.data_len + 4096)
    × (r'.data_len ≡ r.data_len)
    × (take r.data_len buf ≡ put_bytes r)
    × IsPlaced (abs_page + r'.npages) rs rs' (drop (r'.npages * 4096) buf)

pub payload_npages-bounds :
    (n : ℕ) → n < 2 ^ 32 → (n ≤ payload_npages n * 4096) × (payload_npages n * 4096 < n + 4096)
unfolding payload_npages
payload_npages-bounds n l = (omega (arith, l), omega (arith, l))

pad_pages-length :
    (bytes : List ℕ) (n : ℕ) → length bytes ≤ n * 4096 → length (pad_pages bytes n) ≡ n * 4096
unfolding pad_pages
pad_pages-length bytes n l = omega (
  arith,
  l,
  length-append bytes (replicate (n * 4096 - length bytes) zero),
  length-replicate (n * 4096 - length bytes) zero,
)

append_assoc : (xs ys zs : List ℕ) → (xs ++ ys) ++ zs ≡ xs ++ (ys ++ zs)
append_assoc [] ys zs = refl
append_assoc (x ∷ xs) ys zs = ap (◌∷◌ x) (append_assoc xs ys zs)

take-pad_pages :
    (bytes : List ℕ) (n k : ℕ) (rest : List ℕ)
    → length bytes ≡ k
    → take k (pad_pages bytes n ++ rest) ≡ bytes
unfolding pad_pages
take-pad_pages bytes n k rest e =
    ap (take k) (append_assoc bytes (replicate (n * 4096 - length bytes) 0) rest)
    ∙ take_append k bytes _ e

-- one request: its page, its length in pages, and its bytes at the start of those added
record IsPlace (abs_page : ℕ) (r r' : PutReq) (bytes : List ℕ) : Type 0 where
  page_no : r'.page_no ≡ abs_page
  npages : r'.npages ≡ payload_npages r.data_len
  data_len : r'.data_len ≡ r.data_len
  bytes_eq : bytes ≡ pad_pages (put_bytes r) r'.npages

place_req-IsPlace :
    (abs_page : ℕ) (r : PutReq)
    → Sized r
    → IsPlace abs_page r (place_req abs_page r).0 (place_req abs_page r).1
unfolding place_req
place_req-IsPlace abs_page r s = elim (Bool-cases (is_part r)) [
  | inl t ↦ rw t (record { page_no = refl; npages = refl; data_len = refl; bytes_eq = refl })
  | inr t ↦ rw t (record {
    page_no = refl;
    npages = ap payload_npages s.bytes;
    data_len = ap u32 s.bytes ∙ mod-eq_of_lt s.small;
    bytes_eq = refl;
  })
]

-- The requests of a batch
pub place_reqs-IsPlaced :
    (abs_page : ℕ) (rs : List PutReq)
    → AllSized rs
    → need_pages rs < 2 ^ 32
    → IsPlaced abs_page rs (place_reqs abs_page rs).0 (place_reqs abs_page rs).1
      × (length (place_reqs abs_page rs).1 ≡ (place_reqs abs_page rs).2 * 4096)
      × ((place_reqs abs_page rs).2 ≡ need_pages rs)
unfolding place_reqs need_pages
place_reqs-IsPlaced abs_page [] s few = (tt, refl, refl)
place_reqs-IsPlaced abs_page (r ∷ rs) (s, ss) few =
    let r' : PutReq = (place_req abs_page r).0 in
    let bytes : List ℕ = (place_req abs_page r).1 in
    let o : IsPlace abs_page r r' bytes = place_req-IsPlace abs_page r s in
    let (placed, len, total) =
      place_reqs-IsPlaced (abs_page + r'.npages) rs ss (omega (arith, few)) in
    let sum : u32 (r'.npages + (place_reqs (abs_page + r'.npages) rs).2)
        ≡ r'.npages + (place_reqs (abs_page + r'.npages) rs).2 =
      mod-eq_of_lt (omega (arith, total, o.npages, few)) in
    let rest : List ℕ = (place_reqs (abs_page + r'.npages) rs).1 in
    let (low, high) = payload_npages-bounds r.data_len s.small in
    let here : length bytes ≡ r'.npages * 4096 =
      ap length o.bytes_eq
      ∙ pad_pages-length (put_bytes r) r'.npages (omega (arith, s.bytes, o.npages, low)) in
    (
      (
        o.page_no,
        omega (arith, o.npages, low),
        omega (arith, o.npages, high),
        o.data_len,
        ap (λ (l : List ℕ). take r.data_len (l ++ rest)) o.bytes_eq
            ∙ take-pad_pages (put_bytes r) r'.npages r.data_len rest s.bytes,
        subst (IsPlaced (abs_page + r'.npages) rs (place_reqs (abs_page + r'.npages) rs).0)
            (sym (drop_append (r'.npages * 4096) bytes rest here)) placed,
      ),
      omega (arith, length-append bytes rest, here, len, sum),
      omega (arith, total, o.npages, sum),
    )
