-- ===== src/Journal/Replay.antt =====
-- The reading half of src/journal.cpp: `journal_replay`. The callback is a function on a state of
-- the caller's; the flag it returns ends the replay.
use kvtier.Prelude.{
  ℕ, zero, suc, ◌+◌, ◌*◌, Bool, ◌||◌, not, List, ◌==◌, ltb, if◌then◌else◌, take, drop, ℤ, eq_ℤ,
}
use kvtier.Common.{u64, kv_page_size, kv_eok, kv_max_layers_cap}
use kvtier.Common.Bytes.{le_value}
use kvtier.Device.{read_page}
use kvtier.Journal.{
  JournalRec, Journal, jrec_of, jrec_n_lens, jrec_crc, jrec_total, data_crc_len, words_of,
  kv_jop_put, kv_jop_trim, kv_journal_rec_size,
}

-- the arguments of the callback
pub record Entry : Type 0 where
  pub rec : JournalRec
  pub data_crc : ℕ
  pub lens : List ℕ
  pub path : List ℕ

-- what stands at the start of `tail`, the page from `off` on
unfoldable pub entry_of : List ℕ → Entry
entry_of tail =
    let r = jrec_of tail in
    let after = drop (64 + data_crc_len r) tail in
    record {
      rec = r;
      data_crc = if r.op == kv_jop_put then le_value (take 4 (drop 64 tail)) else 0;
      lens = words_of (jrec_n_lens r) 4 after;
      path = words_of r.path_len 8 (drop (jrec_n_lens r * 4) after);
    }

-- the bytes of the record at `tail` and what follows have the CRC it stores
unfoldable pub entry_crc_ok : List ℕ → Bool
entry_crc_ok tail =
    let e = entry_of tail in
    e.rec.crc32 == jrec_crc (take 64 tail) (e.rec.op == kv_jop_put) e.data_crc e.lens e.path

-- how one page ends: the replay goes on with the next page, or returns
pub data Scan {ℓ} (A : Type ℓ) : Type ℓ where
  next : A → Scan A
  finish : A → Scan A

module _ {ℓ} {A : Type ℓ} (cb : Entry → A → A × Bool) where
  -- The `while` loop over a page with `rounds` to go. A round moves `off` by 64 at least, so 64
  -- rounds from 0 reach the end of the page, where the loop's condition fails.
  unfoldable pub replay_page : ℕ → List ℕ → ℕ → A → Scan A
  replay_page zero page off a = next a
  replay_page (suc rounds) page off a =
      let tail = drop off page in
      let e = entry_of tail in
      let total = jrec_total e.rec in
      let (a', done) = cb e a in
      let rest = replay_page rounds page (off + total) a' in
      if ltb kv_page_size (off + kv_journal_rec_size)
      then next a
      else if e.rec.op == 0
      then if off == 0 then finish a else next a
      else if ltb kv_jop_trim e.rec.op
          || (ltb 256 e.rec.path_len || ltb kv_max_layers_cap e.rec.n_recs)
      then finish a
      else if ltb kv_page_size (off + total)
      then finish a
      else if not (entry_crc_ok tail)
      then finish a
      else if done
      then finish a'
      else rest

  -- the loop over `n` pages from `p` on
  unfoldable pub replay_pages : ℕ → ℕ → Journal → A → ℤ × A
  replay_pages zero p j a = (kv_eok, a)
  replay_pages (suc n) p j a =
      let (rc, page) = read_page j.dev (u64 (j.journal_page + p)) in
      if eq_ℤ rc kv_eok
      then elim (replay_page 64 page 0 a) [
        | next a' ↦ replay_pages n (p + 1) j a'
        | finish a' ↦ (kv_eok, a')
      ]
      else (rc, a)

  unfoldable pub journal_replay : Journal → A → ℤ × A
  journal_replay j a = replay_pages j.journal_pages 0 j a
