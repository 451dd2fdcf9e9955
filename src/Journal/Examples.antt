-- ===== src/Journal/Examples.antt =====
-- src/journal.cpp on an empty journal, a deletion and a flush.
use kvtier.Prelude.{ℕ, ◌+◌, ◌≡◌, ◌<◌, ◌≤◌, refl, Bool, false, List, [], ◌∷◌, arith}
use kvtier.Common.{u64, kv_eok}
use kvtier.Device.{Device, write_page}
use kvtier.Journal.{Journal, jrec_n_lens, jrec_total, kv_jop_del}
use kvtier.Journal.Log.{
  journal_init, journal_append, journal_flush, journal_flush_page, zero_rec, sealed, journal_store,
}
use kvtier.Journal.Replay.{Entry, next, replay_page}
use kvtier.Journal.Entry.{FitsRec, FitsEntry}
use kvtier.Journal.Roundtrip.{entries_bytes, page_of, replayed, replay_page-page_of}
use kvtier.Journal.Append.{
  Holds, Valid, append, sealed_entry, journal_append-Holds, journal_flush-Holds,
}

abbrev disk : Device
disk = record {
  dev_id = 1;
  pages = λ p. [];
  read_rc = λ p. kv_eok;
  write_rc = λ p. kv_eok;
  torn = λ p bytes. [];
}

abbrev start : Journal
start = journal_init disk 2 64

abbrev deletion : Entry
deletion = record {
  rec = record zero_rec { op = kv_jop_del; prefix_id = 77; group_idx = 3 };
  data_crc = 0;
  lens = [];
  path = [];
}

deletion-FitsRec : FitsRec deletion.rec
deletion-FitsRec = record {
  op = omega arith;
  dev_id = omega arith;
  prefix_id = omega arith;
  group_idx = omega arith;
  ver = omega arith;
  addr_dev = omega arith;
  addr_page = omega arith;
  addr_off = omega arith;
  addr_len = omega arith;
  stripe_idx = omega arith;
  stripe_cnt = omega arith;
  flags = omega arith;
  expire_ts = omega arith;
  crc32 = omega arith;
  path_len = omega arith;
  n_recs = omega arith;
}

deletion-FitsEntry : FitsEntry deletion
unfolding jrec_n_lens
deletion-FitsEntry = record {
  rec = deletion-FitsRec;
  data_crc = omega arith;
  no_data = λ _. refl;
  n_lens = refl;
  lens = tt;
  path_len = refl;
  path = tt;
}

deletion-Valid : Valid deletion
deletion-Valid = record {
  fits = deletion-FitsEntry;
  op_pos = omega arith;
  op_le = omega arith;
  path_le = omega arith;
  recs_le = omega arith;
}

start-Holds : Holds start []
unfolding journal_init entries_bytes
start-Holds = record { stage = refl; cur_off = refl; room = omega arith; sound = tt }

deletion-room : start.cur_off + jrec_total deletion.rec ≤ 4096
unfolding journal_init jrec_total jrec_n_lens
deletion-room = omega arith

start-open : start.cur_page < start.journal_pages
unfolding journal_init
start-open = omega arith

abbrev appended : List Entry
appended = sealed_entry start deletion ∷ []

after_one : ((append start deletion).1 ≡ kv_eok) × Holds (append start deletion).0 appended
after_one =
    journal_append-Holds start [] deletion start-Holds deletion-Valid start-open deletion-room

-- a callback that counts
abbrev count : Entry → ℕ → ℕ × Bool
count e n = (n + 1, false)

flush_ok : (journal_flush (append start deletion).0).1 ≡ kv_eok
unfolding journal_flush journal_flush_page write_page journal_append journal_store journal_init
    jrec_total jrec_n_lens sealed
flush_ok = refl

journal_append-Holds_example :
    ((append start deletion).1 ≡ kv_eok) × Holds (append start deletion).0 appended
journal_append-Holds_example =
    journal_append-Holds start [] deletion start-Holds deletion-Valid start-open deletion-room

replay_page-page_of_example :
    replay_page count 64 (page_of appended) 0 5 ≡ next (replayed count appended 5)
replay_page-page_of_example =
    replay_page-page_of count appended 5 (omega arith) after_one.1.room after_one.1.sound
      (λ e b. refl)

journal_flush-Holds_example :
    replay_page count 64
      ((journal_flush (append start deletion).0).0.dev.pages
        (u64 ((append start deletion).0.journal_page + (append start deletion).0.cur_page)))
      0
      5
    ≡ next (replayed count appended 5)
journal_flush-Holds_example =
    journal_flush-Holds count (append start deletion).0 appended 5 after_one.1 (omega arith)
      flush_ok (λ e b. refl)
