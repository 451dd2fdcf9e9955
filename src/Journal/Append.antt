-- ===== src/Journal/Append.antt =====
-- `journal_append` keeps the page in memory a page of sound entries, and `journal_flush` leaves a
-- page on the device that replays.
use kvtier.Prelude.{
  ℕ, zero, suc, ◌+◌, ◌-◌, ◌^◌, ◌<◌, ◌≤◌, ◌≡◌, refl, ◌∙◌, ap, sym, List, [], ◌∷◌, ◌++◌, arith, drop,
  length, length-append, take_append, take_all, drop-append_add, Bool, true, false, ◌==◌, ==_iff,
  leb, replicate, ℤ,
}
use mathlib.Core.List.{append_assoc, append-nil}
use native.Mathlib.Nat.{mod-eq_of_lt, mod-lt}
use kvtier.Common.{u16, u32, u64, kv_eok}
use kvtier.Device.{write_page}
use kvtier.Crc.Append.{crc32_partial-lt}
use kvtier.Journal.{JournalRec, Journal, jrec_bytes, jrec_n_lens, jrec_crc, jrec_total, kv_jop_put}
use kvtier.Journal.Log.{
  sealed, memcpy_at, journal_store, journal_append, journal_flush, journal_flush_page,
}
use kvtier.Journal.Replay.{Entry, next, replay_page}
use kvtier.Journal.Entry.{FitsRec, FitsEntry, image, length-image}
use kvtier.Journal.Roundtrip.{
  Sound, AllSound, entries_bytes, page_of, replayed, replay_page-page_of, ltb-false, total_ge,
}

-- the page in memory holds exactly these entries
pub record Holds (j : Journal) (es : List Entry) : Type 0 where
  pub stage : j.stage ≡ page_of es
  pub cur_off : j.cur_off ≡ length (entries_bytes es)
  pub room : length (entries_bytes es) ≤ 4096
  pub sound : AllSound es

-- what a caller may append: fields that fit, and within the limits of `journal_replay`
pub record Valid (e : Entry) : Type 0 where
  pub fits : FitsEntry e
  pub op_pos : 0 < e.rec.op
  pub op_le : e.rec.op ≤ 3
  pub path_le : e.rec.path_len ≤ 256
  pub recs_le : e.rec.n_recs ≤ 256

-- the entry with its device and CRC filled in
abbrev pub sealed_entry : Journal → Entry → Entry
sealed_entry j e = record e { rec = sealed j e.rec e.data_crc e.lens e.path }

-- the arguments of `journal_append` as an entry
abbrev pub append : Journal → Entry → Journal × ℤ
append j e = journal_append j e.rec e.data_crc e.lens e.path

sealed-lt : (j : Journal) (e : Entry) → (sealed_entry j e).rec.crc32 < 256 ^ 4
unfolding sealed jrec_crc
sealed-lt j e = crc32_partial-lt _ _ (
    crc32_partial-lt _ _
      (crc32_partial-lt _ _ (crc32_partial-lt _ _ (crc32_partial-lt 0 _ (omega arith)))))

sealed-FitsRec : (j : Journal) (e : Entry) → FitsRec e.rec → FitsRec (sealed_entry j e).rec
unfolding sealed
sealed-FitsRec j e f = record {
  op = f.op;
  dev_id = mod-lt j.dev.dev_id {m = 256 ^ 2} (omega arith);
  prefix_id = f.prefix_id;
  group_idx = f.group_idx;
  ver = f.ver;
  addr_dev = f.addr_dev;
  addr_page = f.addr_page;
  addr_off = f.addr_off;
  addr_len = f.addr_len;
  stripe_idx = f.stripe_idx;
  stripe_cnt = f.stripe_cnt;
  flags = f.flags;
  expire_ts = f.expire_ts;
  crc32 = sealed-lt j e;
  path_len = f.path_len;
  n_recs = f.n_recs;
}

sealed-FitsEntry : (j : Journal) (e : Entry) → FitsEntry e → FitsEntry (sealed_entry j e)
unfolding sealed jrec_n_lens
sealed-FitsEntry j e f = record {
  rec = sealed-FitsRec j e f.rec;
  data_crc = f.data_crc;
  no_data = f.no_data;
  n_lens = f.n_lens;
  lens = f.lens;
  path_len = f.path_len;
  path = f.path;
}

-- the stored CRC is no part of what it covers
crc_ignored :
    (r : JournalRec) (c : ℕ) (put : Bool) (d : ℕ) (lens path : List ℕ)
    → jrec_crc (jrec_bytes (record r { crc32 = 0 })) put d lens path
      ≡ jrec_crc (jrec_bytes (record r { crc32 = c })) put d lens path
unfolding jrec_crc jrec_bytes
crc_ignored r c put d lens path = refl

sealed-crc :
    (j : Journal) (e : Entry)
    → FitsEntry e
    → (sealed_entry j e).rec.crc32
      ≡ jrec_crc
          (jrec_bytes (sealed_entry j e).rec)
          ((sealed_entry j e).rec.op == kv_jop_put)
          e.data_crc
          e.lens
          e.path
unfolding sealed jrec_n_lens
sealed-crc j e f =
    let r : JournalRec = record e.rec { dev_id = u16 j.dev.dev_id; crc32 = 0 } in
    let put = e.rec.op == kv_jop_put in
    (λ i.
      jrec_crc (jrec_bytes r) put e.data_crc (take_all (jrec_n_lens e.rec) e.lens f.n_lens i)
        (take_all e.rec.path_len e.path f.path_len i))
    ∙ crc_ignored r (sealed j e.rec e.data_crc e.lens e.path).crc32 put e.data_crc e.lens e.path

sealed-Sound : (j : Journal) (e : Entry) → Valid e → Sound (sealed_entry j e)
unfolding sealed
sealed-Sound j e v = record {
  fits = sealed-FitsEntry j e v.fits;
  op_pos = v.op_pos;
  op_le = v.op_le;
  path_le = v.path_le;
  recs_le = v.recs_le;
  crc = sealed-crc j e v.fits;
}

sealed-total : (j : Journal) (e : Entry) → jrec_total (sealed_entry j e).rec ≡ jrec_total e.rec
unfolding sealed jrec_total jrec_n_lens
sealed-total j e = refl

drop-replicate : (n k : ℕ) → drop {A = ℕ} n (replicate k 0) ≡ replicate (k - n) 0
drop-replicate zero k = let e : k ≡ k - 0 = omega arith in ap (λ (m : ℕ). replicate m 0) e
drop-replicate (suc n) zero = let e : 0 ≡ 0 - suc n = omega arith in ap (λ (m : ℕ). replicate m 0) e
drop-replicate (suc n) (suc k) =
    let e : k - n ≡ suc k - suc n = omega arith in
    drop-replicate n k ∙ ap (λ (m : ℕ). replicate m 0) e

AllSound-append : (es : List Entry) (e : Entry) → AllSound es → Sound e → AllSound (es ++ (e ∷ []))
AllSound-append [] e s t = (t, tt)
AllSound-append (x ∷ es) e (h, s) t = (h, AllSound-append es e s t)

entries-append :
    (es : List Entry) (e : Entry) → entries_bytes (es ++ (e ∷ [])) ≡ entries_bytes es ++ image e
unfolding entries_bytes
entries-append [] e = append-nil (image e)
entries-append (x ∷ es) e =
    ap (◌++◌ (image x)) (entries-append es e)
    ∙ sym (append_assoc (image x) (entries_bytes es) (image e))

-- copying an entry behind the others makes the page of them all
memcpy_at-page_of :
    (es : List Entry) (e : Entry)
    → length (entries_bytes es) + length (image e) ≤ 4096
    → memcpy_at (page_of es) (length (entries_bytes es)) (image e) ≡ page_of (es ++ (e ∷ []))
unfolding memcpy_at
memcpy_at-page_of es e h =
    let A = entries_bytes es in
    let n = length A in
    let m = length (image e) in
    let zeros : List ℕ = replicate (4096 - n) 0 in
    let past : drop (n + m) (A ++ zeros) ≡ replicate (4096 - n - m) 0 =
      drop-append_add n m A zeros refl ∙ drop-replicate m (4096 - n) in
    let len : 4096 - n - m ≡ 4096 - length (entries_bytes (es ++ (e ∷ []))) =
      omega (arith, ap length (entries-append es e), length-append A (image e)) in
    rw (take_append n A zeros refl, past, len, entries-append es e)
      (sym (append_assoc A (image e) _))

append_room :
    (j : Journal) (e : Entry)
    → j.cur_page < j.journal_pages
    → j.cur_off + jrec_total e.rec ≤ 4096
    → append j e ≡ journal_store j (sealed_entry j e).rec e.data_crc e.lens e.path
unfolding journal_append
append_room j e p r =
    let t₁ = ltb-false 4096 (jrec_total e.rec) (omega (arith, r)) in
    let t₂ : leb j.journal_pages j.cur_page ≡ false = ground (arith, p) in
    let t₃ = ltb-false 4096 (j.cur_off + jrec_total e.rec) r in
    rw (sealed-total j e, t₁, t₂, t₃) refl

store-ok : (j : Journal) (e : Entry) → (journal_store j e.rec e.data_crc e.lens e.path).1 ≡ kv_eok
unfolding journal_store
store-ok j e = refl

journal_store-Holds :
    (j : Journal) (es : List Entry) (e : Entry)
    → Holds j es
    → Sound e
    → length (entries_bytes es) + jrec_total e.rec ≤ 4096
    → Holds (journal_store j e.rec e.data_crc e.lens e.path).0 (es ++ (e ∷ []))
unfolding journal_store
journal_store-Holds j es e h s r =
    let li = length-image e s.fits in
    let le = length-append (entries_bytes es) (image e) in
    let all = ap length (entries-append es e) in
    let off : u32 (j.cur_off + jrec_total e.rec) ≡ length (entries_bytes es) + jrec_total e.rec =
      ap (λ (t : ℕ). u32 (t + jrec_total e.rec)) h.cur_off ∙ mod-eq_of_lt (omega (arith, r)) in
    record {
      stage =
          ap (λ (t : List ℕ). memcpy_at t j.cur_off (image e)) h.stage
          ∙ ap (λ (t : ℕ). memcpy_at (page_of es) t (image e)) h.cur_off
          ∙ memcpy_at-page_of es e (omega (arith, r, li));
      cur_off = off ∙ omega (arith, all, le, li);
      room = omega (arith, all, le, li, r);
      sound = AllSound-append es e h.sound s;
    }

-- journal_append of a valid entry that the current page has room for, on a journal that is not
-- full, returns 0, and the page in memory then holds the entry, with its device and CRC, behind
-- the entries it held.
pub journal_append-Holds :
    (j : Journal) (es : List Entry) (e : Entry)
    → Holds j es
    → Valid e
    → j.cur_page < j.journal_pages
    → j.cur_off + jrec_total e.rec ≤ 4096
    → ((append j e).1 ≡ kv_eok) × Holds (append j e).0 (es ++ (sealed_entry j e ∷ []))
journal_append-Holds j es e h v p r =
    let s = sealed-Sound j e v in
    let t = sealed-total j e in
    rw (append_room j e p r) (
      store-ok j (sealed_entry j e),
      journal_store-Holds j es (sealed_entry j e) h s (omega (arith, r, t, h.cur_off)),
    )

entries-pos : (es : List Entry) → 0 < length es → AllSound es → 0 < length (entries_bytes es)
unfolding entries_bytes
entries-pos [] h s = absurd (omega arith)
entries-pos (e ∷ es) h (s, _) =
    omega (arith, length-append (image e) (entries_bytes es), length-image e s.fits, total_ge e.rec)

flush-stage :
    (j : Journal)
    → 0 < j.cur_off
    → (journal_flush j).1 ≡ kv_eok
    → (journal_flush j).0.dev.pages (u64 (j.journal_page + j.cur_page)) ≡ j.stage
unfolding journal_flush journal_flush_page write_page
flush-stage j h ok =
    let p = u64 (j.journal_page + j.cur_page) in
    let z : (j.cur_off == 0) ≡ false = ground (arith, h) in
    let w : j.dev.write_rc p ≡ kv_eok = rw z at ok in
    let here : (p == p) ≡ true = (==_iff p p).1 refl in rw (z, w, here) refl

-- If the page in memory holds sound entries, at least one, a journal_flush that returns 0 leaves
-- a page on the device from which replay gives a callback that never stops exactly those
-- entries, in order, and goes on to the next page.
pub journal_flush-Holds :
    {A : Type 0} (cb : Entry → A → A × Bool) (j : Journal) (es : List Entry) (a : A)
    → Holds j es
    → 0 < length es
    → (journal_flush j).1 ≡ kv_eok
    → ((e : Entry) (b : A) → (cb e b).1 ≡ false)
    → replay_page cb 64 ((journal_flush j).0.dev.pages (u64 (j.journal_page + j.cur_page))) 0 a
      ≡ next (replayed cb es a)
journal_flush-Holds cb j es a h n ok k =
    rw (flush-stage j (omega (arith, h.cur_off, entries-pos es n h.sound)) ok, h.stage)
      (replay_page-page_of cb es a n h.room h.sound k)
