-- ===== src/Journal/Roundtrip.antt =====
-- `journal_replay` reads a page of sound entries in order.
use kvtier.Prelude.{
  ℕ, zero, suc, ◌+◌, ◌-◌, ◌*◌, ◌<◌, ◌≤◌, ◌≡◌, refl, ◌∙◌, ap, sym, List, [], ◌∷◌, ◌++◌, arith, take,
  drop, length, length-append, take_append, drop_append, Bool, true, false, ◌==◌, ==_iff,
  Bool-cases, inl, inr, ltb, ltb→lt, replicate,
}
use mathlib.Core.List.{append_assoc}
use kvtier.Common.Bytes.{field, le_value}
use kvtier.Journal.{JournalRec, jrec_bytes, jrec_of, jrec_crc, jrec_total, kv_jop_put}
use kvtier.Journal.Replay.{Entry, next, entry_of, entry_crc_ok, replay_page}
use kvtier.Journal.Entry.{
  FitsEntry, image, length-image, entry_of-image, image-append, length-jrec_bytes,
}

-- an entry that `journal_replay` accepts
pub record Sound (e : Entry) : Type 0 where
  pub fits : FitsEntry e
  pub op_pos : 0 < e.rec.op
  pub op_le : e.rec.op ≤ 3
  pub path_le : e.rec.path_len ≤ 256
  pub recs_le : e.rec.n_recs ≤ 256
  pub crc :
      e.rec.crc32 ≡ jrec_crc (jrec_bytes e.rec) (e.rec.op == kv_jop_put) e.data_crc e.lens e.path

abbrev pub AllSound : List Entry → Type 0
AllSound [] = Unit {0}
AllSound (e ∷ es) = Sound e × AllSound es

unfoldable pub entries_bytes : List Entry → List ℕ
entries_bytes [] = []
entries_bytes (e ∷ es) = image e ++ entries_bytes es

-- the CRC test over an abstract tail
crc_at :
    (tail : List ℕ) (e : Entry)
    → entry_of tail ≡ e
    → take 64 tail ≡ jrec_bytes e.rec
    → e.rec.crc32 ≡ jrec_crc (jrec_bytes e.rec) (e.rec.op == kv_jop_put) e.data_crc e.lens e.path
    → entry_crc_ok tail ≡ true
unfolding entry_crc_ok
crc_at tail e h t c = rw (h, t) ((==_iff e.rec.crc32 _).1 c)

crc-image : (e : Entry) (post : List ℕ) → Sound e → entry_crc_ok (image e ++ post) ≡ true
crc-image e post s =
    crc_at (image e ++ post) e (entry_of-image e post s.fits)
      (ap (take 64) (image-append e post s.fits)
        ∙ take_append 64 (jrec_bytes e.rec) _ (length-jrec_bytes e.rec))
      s.crc

pub ltb-false : (a b : ℕ) → b ≤ a → ltb a b ≡ false
ltb-false a b h = elim (Bool-cases (ltb a b)) [
  | inl t ↦ absurd (omega (arith, h, ltb→lt a b t))
  | inr f ↦ f
]

pub total_ge : (r : JournalRec) → 64 ≤ jrec_total r
unfolding jrec_total
total_ge r = omega arith

op-zeros : (z : ℕ) → 0 < z → (entry_of (replicate z 0)).rec.op ≡ 0
unfolding entry_of jrec_of field le_value
op-zeros zero h = absurd (omega arith)
op-zeros (suc z) h = refl

module _ {ℓ} {A : Type ℓ} (cb : Entry → A → A × Bool) where
  -- the callback on the entries in order
  pub replayed : List Entry → A → A
  replayed [] a = a
  replayed (e ∷ es) a = replayed es (cb e a).0

  -- one round on a sound entry
  replay_round :
      (rounds off : ℕ) (page : List ℕ) (e : Entry) (a : A)
      → entry_of (drop off page) ≡ e
      → entry_crc_ok (drop off page) ≡ true
      → Sound e
      → off + jrec_total e.rec ≤ 4096
      → 64 ≤ jrec_total e.rec
      → (cb e a).1 ≡ false
      → replay_page cb (suc rounds) page off a
        ≡ replay_page cb rounds page (off + jrec_total e.rec) (cb e a).0
  unfolding replay_page
  replay_round rounds off page e a h c s room t d =
      let t₁ = ltb-false 4096 (off + 64) (omega (arith, room, t)) in
      let t₂ : (e.rec.op == 0) ≡ false = ground (arith, s.op_pos) in
      let t₃ = ltb-false 3 e.rec.op s.op_le in
      let t₄ = ltb-false 256 e.rec.path_len s.path_le in
      let t₅ = ltb-false 256 e.rec.n_recs s.recs_le in
      let t₆ = ltb-false 4096 (off + jrec_total e.rec) room in
      rw (h, c, t₁, t₂, t₃, t₄, t₅, t₆, d) refl

  -- the end of the page: what is left is zero, or too short for a record
  replay_end :
      (rounds off z : ℕ) (page : List ℕ) (a : A)
      → drop off page ≡ replicate z 0
      → off + z ≡ 4096
      → 0 < off
      → replay_page cb rounds page off a ≡ next a
  unfolding replay_page
  replay_end zero off z page a d l h = refl
  replay_end (suc rounds) off z page a d l h = elim (Bool-cases (ltb 4096 (off + 64))) [
    | inl t ↦ rw t refl
    | inr t ↦
        let o : ((entry_of (replicate z 0)).rec.op == 0) ≡ true =
          (==_iff _ 0).1 (op-zeros z (ground (arith, t, l))) in
        let n : (off == 0) ≡ false = ground (arith, h) in rw (t, d, o, n) refl
  ]

  -- A page of sound entries, zero after them, is replayed from any of them on: the callback gets
  -- every entry in order, and the replay goes on with the next page.
  replay_entries :
      (es : List Entry) (pre page : List ℕ) (rounds off z : ℕ) (a : A)
      → page ≡ pre ++ (entries_bytes es ++ replicate z 0)
      → length pre ≡ off
      → off + length (entries_bytes es) + z ≡ 4096
      → 4096 ≤ off + 64 * rounds
      → 0 < off + length es
      → AllSound es
      → ((e : Entry) (b : A) → (cb e b).1 ≡ false)
      → replay_page cb rounds page off a ≡ next (replayed es a)
  unfolding entries_bytes replayed
  replay_entries [] pre page rounds off z a d l t r h s k =
      replay_end rounds off z page a (ap (drop off) d ∙ drop_append off pre (replicate z 0) l)
        (omega (arith, t)) (omega (arith, h))
  replay_entries (e ∷ es) pre page zero off z a d l t r h (s, ss) k = absurd (
      omega (
        arith,
        length-append (image e) (entries_bytes es),
        length-image e s.fits,
        total_ge e.rec,
        t,
        r,
      ))
  replay_entries (e ∷ es) pre page (suc rounds) off z a d l t r h (s, ss) k =
      let post = entries_bytes es ++ replicate z 0 in
      let n = jrec_total e.rec in
      let li = length-image e s.fits in
      let sum = length-append (image e) (entries_bytes es) in
      let ge = total_ge e.rec in
      let d₁ : page ≡ pre ++ (image e ++ post) =
        d ∙ ap (◌++◌ pre) (append_assoc (image e) (entries_bytes es) (replicate z 0)) in
      let tail : drop off page ≡ image e ++ post =
        ap (drop off) d₁ ∙ drop_append off pre (image e ++ post) l in
      let ih =
        replay_entries es (pre ++ image e) page rounds (off + n) z (cb e a).0
          (d₁ ∙ sym (append_assoc pre (image e) post))
          (length-append pre (image e) ∙ omega (arith, l, li)) (omega (arith, t, sum, li))
          (omega (arith, r, ge)) (omega (arith, ge)) ss k in
      replay_round rounds off page e a (ap entry_of tail ∙ entry_of-image e post s.fits)
        (ap entry_crc_ok tail ∙ crc-image e post s) s (omega (arith, t, sum, li)) ge (k e a)
      ∙ ih

-- a page of entries from its start, zero after them
abbrev pub page_of : List Entry → List ℕ
page_of es = entries_bytes es ++ replicate (4096 - length (entries_bytes es)) 0

-- A page of at least one sound entry, zero after them, is replayed completely and in order by
-- the loop of journal_replay within its 64 rounds, for a callback that never stops.
pub replay_page-page_of :
    {A : Type 0} (cb : Entry → A → A × Bool) (es : List Entry) (a : A)
    → 0 < length es
    → length (entries_bytes es) ≤ 4096
    → AllSound es
    → ((e : Entry) (b : A) → (cb e b).1 ≡ false)
    → replay_page cb 64 (page_of es) 0 a ≡ next (replayed cb es a)
replay_page-page_of cb es a h l s k =
    replay_entries cb es [] (page_of es) 64 0 (4096 - length (entries_bytes es)) a refl refl
      (omega (arith, l)) (omega arith) (omega (arith, h)) s k
