-- ===== src/Journal/Entry.antt =====
-- A record of the journal and its arrays read back from its bytes.
use kvtier.Prelude.{
  ℕ, ◌+◌, ◌*◌, ◌^◌, ◌<◌, ◌≡◌, refl, ◌∙◌, ap, sym, List, [], ◌++◌, arith, take, drop, length,
  length-append, take_append, take_all, drop_append, drop-append_add, false, ◌==◌, Bool-cases, inl,
  inr, if◌then◌else◌,
}
use mathlib.Core.List.{append_assoc}
use kvtier.Common.Bytes.{le_bytes, le_value, le_value-le_bytes, length-le_bytes}
use kvtier.Journal.{
  JournalRec, jrec_bytes, jrec_of, jrec_n_lens, jrec_total, data_crc_len, words_bytes, words_of,
  kv_jop_put,
}
use kvtier.Journal.Words.{AllFit, length-words_bytes, words_of-words_bytes}
use kvtier.Journal.Log.{entry_image}
use kvtier.Journal.Replay.{Entry, entry_of}

-- every field fits its width
pub record FitsRec (r : JournalRec) : Type 0 where
  pub op : r.op < 256
  pub dev_id : r.dev_id < 256 ^ 2
  pub prefix_id : r.prefix_id < 256 ^ 8
  pub group_idx : r.group_idx < 256 ^ 4
  pub ver : r.ver < 256 ^ 4
  pub addr_dev : r.addr_dev < 256 ^ 4
  pub addr_page : r.addr_page < 256 ^ 8
  pub addr_off : r.addr_off < 256 ^ 4
  pub addr_len : r.addr_len < 256 ^ 4
  pub stripe_idx : r.stripe_idx < 256 ^ 4
  pub stripe_cnt : r.stripe_cnt < 256 ^ 4
  pub flags : r.flags < 256 ^ 4
  pub expire_ts : r.expire_ts < 256 ^ 4
  pub crc32 : r.crc32 < 256 ^ 4
  pub path_len : r.path_len < 256 ^ 2
  pub n_recs : r.n_recs < 256 ^ 2

-- a record with its arrays, of the lengths the record says
pub record FitsEntry (e : Entry) : Type 0 where
  pub rec : FitsRec e.rec
  pub data_crc : e.data_crc < 256 ^ 4
  pub no_data : (e.rec.op == kv_jop_put) ≡ false → e.data_crc ≡ 0
  pub n_lens : length e.lens ≡ jrec_n_lens e.rec
  pub lens : AllFit 4 e.lens
  pub path_len : length e.path ≡ e.rec.path_len
  pub path : AllFit 8 e.path

jrec_of-jrec_bytes :
    (r : JournalRec) (post : List ℕ) → FitsRec r → jrec_of (jrec_bytes r ++ post) ≡ r
unfolding jrec_of jrec_bytes
jrec_of-jrec_bytes r post f = λ i. record {
  op = le_value-le_bytes 1 r.op f.op i;
  dev_id = le_value-le_bytes 2 r.dev_id f.dev_id i;
  prefix_id = le_value-le_bytes 8 r.prefix_id f.prefix_id i;
  group_idx = le_value-le_bytes 4 r.group_idx f.group_idx i;
  ver = le_value-le_bytes 4 r.ver f.ver i;
  addr_dev = le_value-le_bytes 4 r.addr_dev f.addr_dev i;
  addr_page = le_value-le_bytes 8 r.addr_page f.addr_page i;
  addr_off = le_value-le_bytes 4 r.addr_off f.addr_off i;
  addr_len = le_value-le_bytes 4 r.addr_len f.addr_len i;
  stripe_idx = le_value-le_bytes 4 r.stripe_idx f.stripe_idx i;
  stripe_cnt = le_value-le_bytes 4 r.stripe_cnt f.stripe_cnt i;
  flags = le_value-le_bytes 4 r.flags f.flags i;
  expire_ts = le_value-le_bytes 4 r.expire_ts f.expire_ts i;
  crc32 = le_value-le_bytes 4 r.crc32 f.crc32 i;
  path_len = le_value-le_bytes 2 r.path_len f.path_len i;
  n_recs = le_value-le_bytes 2 r.n_recs f.n_recs i;
}

pub length-jrec_bytes : (r : JournalRec) → length (jrec_bytes r) ≡ 64
unfolding jrec_bytes
length-jrec_bytes r = refl

-- the bytes of an entry
abbrev pub image : Entry → List ℕ
image e = entry_image e.rec e.data_crc e.lens e.path

abbrev data_crc_bytes : Entry → List ℕ
data_crc_bytes e = if e.rec.op == kv_jop_put then le_bytes 4 e.data_crc else []

length-data_crc : (e : Entry) → length (data_crc_bytes e) ≡ data_crc_len e.rec
length-data_crc e = elim (Bool-cases (e.rec.op == kv_jop_put)) [
  | inl p ↦ rw p (length-le_bytes 4 e.data_crc)
  | inr p ↦ rw p refl
]

image-parts :
    (e : Entry)
    → FitsEntry e
    → image e
      ≡ jrec_bytes e.rec ++ (data_crc_bytes e ++ (words_bytes 4 e.lens ++ words_bytes 8 e.path))
unfolding entry_image
image-parts e f =
    rw (take_all (jrec_n_lens e.rec) e.lens f.n_lens, take_all e.rec.path_len e.path f.path_len)
      refl

-- the four pieces before what follows them
pub image-append :
    (e : Entry) (post : List ℕ)
    → FitsEntry e
    → image e ++ post
      ≡ jrec_bytes e.rec
        ++ (data_crc_bytes e ++ (words_bytes 4 e.lens ++ (words_bytes 8 e.path ++ post)))
image-append e post f =
    ap (λ (t : List ℕ). t ++ post) (image-parts e f)
    ∙ append_assoc (jrec_bytes e.rec) _ post
    ∙ ap (◌++◌ (jrec_bytes e.rec)) (
        append_assoc (data_crc_bytes e) _ post
        ∙ ap (◌++◌ (data_crc_bytes e))
            (append_assoc (words_bytes 4 e.lens) (words_bytes 8 e.path) post))

pub length-image : (e : Entry) → FitsEntry e → length (image e) ≡ jrec_total e.rec
unfolding jrec_total
length-image e f = rw (image-parts e f) (
    length-append (jrec_bytes e.rec)
      (data_crc_bytes e ++ (words_bytes 4 e.lens ++ words_bytes 8 e.path))
    ∙ omega (
      arith,
      length-jrec_bytes e.rec,
      length-append (data_crc_bytes e) (words_bytes 4 e.lens ++ words_bytes 8 e.path),
      length-data_crc e,
      length-append (words_bytes 4 e.lens) (words_bytes 8 e.path),
      length-words_bytes 4 e.lens,
      length-words_bytes 8 e.path,
      f.n_lens,
      f.path_len,
    ))

entry_at :
    (tail : List ℕ) (e : Entry)
    → jrec_of tail ≡ e.rec
    → (if e.rec.op == kv_jop_put then le_value (take 4 (drop 64 tail)) else 0) ≡ e.data_crc
    → words_of (jrec_n_lens e.rec) 4 (drop (64 + data_crc_len e.rec) tail) ≡ e.lens
    → words_of e.rec.path_len 8 (drop (jrec_n_lens e.rec * 4) (drop (64 + data_crc_len e.rec) tail))
      ≡ e.path
    → entry_of tail ≡ e
unfolding entry_of
entry_at tail e r d l p = rw r (λ i. record { rec = e.rec; data_crc = d i; lens = l i; path = p i })

data_crc-read :
    (e : Entry) (L : List ℕ)
    → FitsEntry e
    → (if e.rec.op == kv_jop_put then le_value (take 4 (data_crc_bytes e ++ L)) else 0) ≡ e.data_crc
data_crc-read e L f = elim (Bool-cases (e.rec.op == kv_jop_put)) [
  | inl p ↦ rw p (
      ap le_value (take_append 4 (le_bytes 4 e.data_crc) L (length-le_bytes 4 e.data_crc))
      ∙ le_value-le_bytes 4 e.data_crc f.data_crc)
  | inr p ↦ rw p (sym (f.no_data p))
]

-- A journal record whose fields fit, with its data CRC, lengths and path, reads back from its
-- bytes whatever follows them.
pub entry_of-image : (e : Entry) (post : List ℕ) → FitsEntry e → entry_of (image e ++ post) ≡ e
entry_of-image e post f =
    let P = words_bytes 8 e.path ++ post in
    let L = words_bytes 4 e.lens ++ P in
    let D = data_crc_bytes e ++ L in
    let d : drop (64 + data_crc_len e.rec) (jrec_bytes e.rec ++ D) ≡ L =
      drop-append_add 64 (data_crc_len e.rec) (jrec_bytes e.rec) D (length-jrec_bytes e.rec)
      ∙ drop_append (data_crc_len e.rec) (data_crc_bytes e) L (length-data_crc e) in
    let l : words_of (jrec_n_lens e.rec) 4 L ≡ e.lens =
      ap (λ (n : ℕ). words_of n 4 L) (sym f.n_lens) ∙ words_of-words_bytes 4 e.lens P f.lens in
    let q : drop (jrec_n_lens e.rec * 4) L ≡ P =
      drop_append (jrec_n_lens e.rec * 4) (words_bytes 4 e.lens) P
        (length-words_bytes 4 e.lens ∙ ap (λ (n : ℕ). n * 4) f.n_lens) in
    let p : words_of e.rec.path_len 8 P ≡ e.path =
      ap (λ (n : ℕ). words_of n 8 P) (sym f.path_len) ∙ words_of-words_bytes 8 e.path post f.path in
    rw (image-append e post f) (
      entry_at (jrec_bytes e.rec ++ D) e (jrec_of-jrec_bytes e.rec D f.rec)
        (rw (drop_append 64 (jrec_bytes e.rec) D (length-jrec_bytes e.rec)) (data_crc-read e L f))
        (rw d l) (rw (d, q) p))
