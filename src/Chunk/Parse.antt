-- ===== src/Chunk/Parse.antt =====
-- `chunk_parse_records` finds the records that `chunk_encode` laid out.
use native.Mathlib.Nat.{mod-eq_of_lt, add-zero}
use mathlib.Core.List.{append_assoc}
use kvtier.Prelude.{
  ℕ, suc, ◌+◌, ◌-◌, ◌*◌, ◌^◌, ◌<◌, ◌≤◌, ◌≡◌, refl, ◌∙◌, ap, sym, false, List, [], ◌∷◌, ◌++◌, arith,
  take, drop, replicate, length, length-append, take_append, drop_append, drop-append_add,
  Bool-cases, inl, inr, ltb, ltb→lt, lt→ltb, pos,
}
use kvtier.Common.{u16, u32}
use kvtier.Common.Bytes.{field, le_value-le_bytes, field-append}
use kvtier.Chunk.{
  ChunkHdr, ChunkBuild, chunk_len_pages, RecDesc, hdr_bytes, hdr_of, draft_hdr, hdr_set_crc,
  records_len, records_bytes, record_hdr, payload, chunk_body, chunk_build_total_len, chunk_encode,
  parse_loop, chunk_parse_records, is_stripe,
}
use kvtier.Chunk.Validate.{crc32-lt}
use kvtier.Crc.{crc32}
use kvtier.Chunk.Layout.{
  FitsBuild, FitsHdr, draft-FitsHdr, hdr_of-hdr_bytes, length-record_hdr, length-hdr_bytes,
}

-- where the records lie: record `i` has its header at `off` and its data eight bytes later
unfoldable pub records_at : ℕ → ℕ → List (List ℕ) → List RecDesc
records_at i off [] = []
records_at i off (r ∷ rs) =
    record { layer_id = i; off = off + 8; len = length r }
    ∷ records_at (i + 1) (off + 8 + length r) rs

ltb-false : (a b : ℕ) → b ≤ a → ltb a b ≡ false
ltb-false a b h = elim (Bool-cases (ltb a b)) [
  | inl t ↦ absurd (omega (arith, h, ltb→lt a b t))
  | inr f ↦ f
]

-- the two fields of a record's header
layer_id-record_hdr :
    (rest : List ℕ) (i len : ℕ) → i < 2 ^ 16 → field (record_hdr i len ++ rest) 0 2 ≡ i
unfolding field record_hdr
layer_id-record_hdr rest i len h = le_value-le_bytes 2 (u16 i) (omega arith) ∙ mod-eq_of_lt h

kv_len-record_hdr :
    (rest : List ℕ) (i len : ℕ) → len < 2 ^ 32 → field (record_hdr i len ++ rest) 4 4 ≡ len
unfolding field record_hdr
kv_len-record_hdr rest i len h = le_value-le_bytes 4 len h

-- one round on a record that lies within the chunk
at_hdr :
    (buf pre bytes : List ℕ) (off : ℕ)
    → buf ≡ pre ++ bytes
    → length pre ≡ off
    → (k w : ℕ) → field buf (off + k) w ≡ field bytes k w
at_hdr buf pre bytes off d e k w = rw d (field-append pre bytes off k w e)

parse_round :
    (left avail off n room layer len : ℕ) (buf : List ℕ)
    → field buf off 2 ≡ layer
    → field buf (off + 4) 4 ≡ len
    → off + 8 + len ≤ 64 + avail
    → 64 + avail < 2 ^ 32
    → n < room
    → parse_loop (suc left) buf avail off n room ≡ (
      (parse_loop left buf avail (off + 8 + len) (n + 1) room).0,
      record { layer_id = layer; off = off + 8; len = len }
          ∷ (parse_loop left buf avail (off + 8 + len) (n + 1) room).1,
    )
unfolding parse_loop
parse_round left avail off n room layer len buf f g s a h =
    let a' : u32 (64 + avail) ≡ 64 + avail = mod-eq_of_lt a in
    let o : u32 (off + 8) ≡ off + 8 = mod-eq_of_lt (omega (arith, s, a)) in
    let x : u32 (off + 8 + len) ≡ off + 8 + len = mod-eq_of_lt (omega (arith, s, a)) in
    let t₁ = ltb-false (64 + avail) (off + 8) (omega (arith, s)) in
    let t₂ = ltb-false (64 + avail) (off + 8 + len) s in
    let t₃ = lt→ltb n room h in rw (f, g, a', o, x, t₁, t₂, t₃) refl

parse_done :
    (buf : List ℕ) (avail off n m room : ℕ)
    → n ≡ m
    → parse_loop 0 buf avail off n room ≡ (pos m, [])
unfolding parse_loop
parse_done buf avail off n m room e = ap (λ (k : ℕ). (pos k, [])) e

records_split :
    (n : ℕ) (r : List ℕ) (rs : List (List ℕ)) (pre post : List ℕ)
    → records_bytes n (r ∷ rs) ++ post
      ≡ record_hdr n (length r) ++ (r ++ (records_bytes (n + 1) rs ++ post))
unfolding records_bytes
records_split n r rs pre post =
    append_assoc (record_hdr n (length r)) _ post
    ∙ ap (◌++◌ (record_hdr n (length r))) (append_assoc r _ post)

regroup :
    (buf pre xs ys zs : List ℕ) → buf ≡ pre ++ (xs ++ (ys ++ zs)) → buf ≡ (pre ++ (xs ++ ys)) ++ zs
regroup buf pre xs ys zs e =
    e ∙ ap (◌++◌ pre) (sym (append_assoc xs ys zs)) ∙ sym (append_assoc pre (xs ++ ys) zs)

parse_loop_lem :
    (rs : List (List ℕ)) (pre post buf : List ℕ) (avail off n m room : ℕ)
    → buf ≡ pre ++ (records_bytes n rs ++ post)
    → length pre ≡ off
    → off + records_len rs ≡ 64 + avail
    → 64 + avail < 2 ^ 32
    → n + length rs ≡ m
    → m ≤ room
    → m < 2 ^ 16
    → parse_loop (length rs) buf avail off n room ≡ (pos m, records_at n off rs)
unfolding records_at records_len
parse_loop_lem [] pre post buf avail off n m room d e s a c l b =
    parse_done buf avail off n m room (omega (arith, c))
parse_loop_lem (r ∷ rs) pre post buf avail off n m room d e s a c l b =
    let tail = r ++ (records_bytes (n + 1) rs ++ post) in
    let hdr = record_hdr n (length r) in
    let d₁ : buf ≡ pre ++ (hdr ++ tail) = d ∙ ap (◌++◌ pre) (records_split n r rs pre post) in
    let f = at_hdr buf pre (hdr ++ tail) off d₁ e in
    let d₂ : buf ≡ (pre ++ (hdr ++ r)) ++ (records_bytes (n + 1) rs ++ post) =
      regroup buf pre hdr r (records_bytes (n + 1) rs ++ post) d₁ in
    let ih =
      parse_loop_lem rs (pre ++ (hdr ++ r)) post buf avail (off + 8 + length r) (n + 1) m room d₂
        (omega (
          arith,
          e,
          length-append pre (hdr ++ r),
          length-append hdr r,
          length-record_hdr n (length r),
        ))
        (omega (arith, s)) a (omega (arith, c)) l b in
    rw ih at (
      parse_round (length rs) avail off n room n (length r) buf
        (ap (λ (m : ℕ). field buf m 2) (sym (add-zero off))
          ∙ f 0 2
          ∙ layer_id-record_hdr tail n (length r) (omega (arith, c, b)))
        (f 4 4 ∙ kv_len-record_hdr tail n (length r) (omega (arith, s, a))) (omega (arith, s)) a
        (omega (arith, c, l)))

payload-records : (b : ChunkBuild) → is_stripe b ≡ false → payload b ≡ records_bytes 0 b.recs
unfolding payload
payload-records b k = rw k refl

draft-n_records : (b : ChunkBuild) → is_stripe b ≡ false → (draft_hdr b).n_records ≡ length b.recs
unfolding draft_hdr
draft-n_records b k = rw k refl

draft-total_len :
    (b : ChunkBuild)
    → FitsBuild b
    → is_stripe b ≡ false
    → (draft_hdr b).total_len ≡ records_len b.recs
unfolding draft_hdr chunk_build_total_len
draft-total_len b f k = rw k (mod-eq_of_lt f.records)

-- the bytes that the descriptors name
unfoldable pub read_records : List ℕ → List RecDesc → List (List ℕ)
read_records buf [] = []
read_records buf (d ∷ ds) = take d.len (drop d.off buf) ∷ read_records buf ds

read-records_at :
    (rs : List (List ℕ)) (pre post buf : List ℕ) (off n : ℕ)
    → buf ≡ pre ++ (records_bytes n rs ++ post)
    → length pre ≡ off
    → read_records buf (records_at n off rs) ≡ rs
unfolding records_at read_records
read-records_at [] pre post buf off n d e = refl
read-records_at (r ∷ rs) pre post buf off n d e =
    let hdr = record_hdr n (length r) in
    let tail = records_bytes (n + 1) rs ++ post in
    let d₁ : buf ≡ pre ++ (hdr ++ (r ++ tail)) =
      d ∙ ap (◌++◌ pre) (records_split n r rs pre post) in
    let g : drop (off + 8) buf ≡ r ++ tail = rw d₁ (
      drop-append_add off 8 pre (hdr ++ (r ++ tail)) e
      ∙ drop_append 8 hdr (r ++ tail) (length-record_hdr n (length r))) in
    let ih =
      read-records_at rs (pre ++ (hdr ++ r)) post buf (off + 8 + length r) (n + 1)
        (regroup buf pre hdr r tail d₁)
        (omega (
          arith,
          e,
          length-append pre (hdr ++ r),
          length-append hdr r,
          length-record_hdr n (length r),
        )) in
    rw (g, take_append (length r) r tail refl, ih) refl

parse_at :
    (buf : List ℕ) (h : ChunkHdr) (k m room : ℕ)
    → hdr_of buf ≡ h
    → h.n_records ≡ k
    → h.total_len ≡ m
    → chunk_parse_records buf room ≡ parse_loop k buf m 64 0 room
unfolding chunk_parse_records
parse_at buf h k m room e n t = rw (e, n, t) refl

parse-hdr :
    (h : ChunkHdr) (rs : List (List ℕ)) (body post : List ℕ) (room : ℕ)
    → FitsHdr h
    → h.n_records ≡ length rs
    → h.total_len ≡ records_len rs
    → body ≡ records_bytes 0 rs ++ post
    → 64 + records_len rs < 2 ^ 32
    → length rs < 2 ^ 16
    → length rs ≤ room
    → chunk_parse_records (hdr_bytes h ++ body) room ≡ (pos (length rs), records_at 0 64 rs)
parse-hdr h rs body post room f n t e a b l =
    parse_at (hdr_bytes h ++ body) h (length rs) (records_len rs) room (hdr_of-hdr_bytes h body f) n
      t
    ∙ parse_loop_lem rs (hdr_bytes h) post (hdr_bytes h ++ body) (records_len rs) 64 0 (length rs)
        room (ap (◌++◌ (hdr_bytes h)) e) (length-hdr_bytes h) refl a (omega arith) l b

abbrev chunk_padding : ChunkBuild → List ℕ
chunk_padding b =
    replicate (chunk_len_pages (chunk_build_total_len b) * 4096 - 64 - length (payload b)) 0

chunk_body-records :
    (b : ChunkBuild)
    → is_stripe b ≡ false
    → (post : List ℕ) × (chunk_body b ≡ records_bytes 0 b.recs ++ post)
unfolding chunk_body
chunk_body-records b k =
    (chunk_padding b, ap (λ (p : List ℕ). p ++ chunk_padding b) (payload-records b k))

-- From a chunk of records (no stripe) that chunk_encode wrote, with fields that fit, a payload
-- below 2^32 - 64 bytes and room for all descriptors, chunk_parse_records returns the number of
-- records and their layers, offsets and lengths in order, and the bytes at those places are the
-- records.
pub chunk_parse_records-chunk_encode :
    (b : ChunkBuild) (room : ℕ)
    → FitsBuild b
    → is_stripe b ≡ false
    → 64 + records_len b.recs < 2 ^ 32
    → length b.recs ≤ room
    → (chunk_parse_records (chunk_encode b).0 room ≡ (pos (length b.recs), records_at 0 64 b.recs))
      × (read_records (chunk_encode b).0 (records_at 0 64 b.recs) ≡ b.recs)
unfolding chunk_encode
chunk_parse_records-chunk_encode b room f k a l =
    let crc = crc32 (hdr_bytes (draft_hdr b) ++ chunk_body b) in
    let h = hdr_set_crc (draft_hdr b) crc in
    let (post, e) = chunk_body-records b k in
    (
      parse-hdr h b.recs (chunk_body b) post room (draft-FitsHdr b crc f (crc32-lt _))
          (draft-n_records b k) (draft-total_len b f k) e a f.n_records l,
      read-records_at b.recs (hdr_bytes h) post (hdr_bytes h ++ chunk_body b) 64 0
          (ap (◌++◌ (hdr_bytes h)) e) (length-hdr_bytes h),
    )
