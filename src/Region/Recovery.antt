-- ===== src/Region/Recovery.antt =====
-- What `sb_load` finds after `sb_write`, when the write went through and when it tore.
use kvtier.Prelude.{
  ℕ, ◌+◌, ◌%◌, ◌<◌, ◌≡◌, refl, sym, ◌∙◌, ap, ◌≢◌, inl, inr, true, false, ◌==◌, ==_iff,
  if◌then◌else◌, Option, none, some, List, arith, eq_ℤ, eq_ℤ_iff, Bool-cases,
}
use kvtier.Common.{kv_eok, kv_sb_magic}
use kvtier.Device.{Device, write_page}
use kvtier.Region.{
  Superblock, RegionMgr, ok, sb_of, sb_crc, sb_bytes, sb_page, sb_valid, sb_copy, sb_choose,
  sb_load, sb_newer, sb_draft, sb_set_crc, sb_write,
}
use kvtier.Region.Layout.{Fits, sb_of-sb_page, sb_crc-set, sb_crc-lt}

-- the page that `sb_write` writes
abbrev pub sb_dst : ℕ → ℕ
sb_dst epoch = if epoch % 2 == 0 then 0 else 1

-- the superblock that `sb_write` writes
abbrev pub written : RegionMgr → ℕ → Superblock
written rm now_s = sb_set_crc (sb_draft rm now_s)

set_crc-Fits : (sb : Superblock) → Fits sb → Fits (sb_set_crc sb)
unfolding sb_set_crc
set_crc-Fits sb f = record {
  magic = f.magic;
  crc32 = omega (arith, sb_crc-lt (sb_bytes sb));
  fmt_ts = f.fmt_ts;
  dev_id = f.dev_id;
  version = f.version;
  region_cnt = f.region_cnt;
  region_size_pages = f.region_size_pages;
  region_base_page = f.region_base_page;
  journal_page = f.journal_page;
  journal_pages = f.journal_pages;
  cur_epoch = f.cur_epoch;
}

set_crc-magic : (sb : Superblock) → (sb_set_crc sb).magic ≡ sb.magic
unfolding sb_set_crc
set_crc-magic sb = refl

set_crc-crc32 : (sb : Superblock) → (sb_set_crc sb).crc32 ≡ sb_crc (sb_bytes sb)
unfolding sb_set_crc
set_crc-crc32 sb = refl

-- a page written whole is valid, and holds what was written
written-valid :
    (sb : Superblock) → Fits sb → sb.magic ≡ kv_sb_magic → sb_valid (sb_page (sb_set_crc sb)) ≡ true
unfolding sb_valid
written-valid sb f m =
    let e = sb_of-sb_page (sb_set_crc sb) (set_crc-Fits sb f) in
    let magic : (sb_of (sb_page (sb_set_crc sb))).magic ≡ kv_sb_magic =
      ap (λ (t : Superblock). t.magic) e ∙ set_crc-magic sb ∙ m in
    let crc : (sb_of (sb_page (sb_set_crc sb))).crc32 ≡ sb_crc (sb_bytes sb) =
      ap (λ (t : Superblock). t.crc32) e ∙ set_crc-crc32 sb in
    rw (magic, crc, sb_crc-set sb) ((==_iff _ _).1 refl)

copy_unread : (d : Device) (p : ℕ) → sb_valid (d.pages p) ≡ false → sb_copy d p ≡ none
unfolding sb_copy
copy_unread d p h = ground (arith, h)

-- the copy that a successful write leaves, where the page can be read
copy_written :
    (d : Device) (p : ℕ) (sb : Superblock)
    → Fits sb
    → sb.magic ≡ kv_sb_magic
    → d.write_rc p ≡ kv_eok
    → d.read_rc p ≡ kv_eok
    → sb_copy (write_page d p (sb_page (sb_set_crc sb))).0 p ≡ some (sb_set_crc sb)
unfolding sb_copy write_page
copy_written d p sb f m w r =
    let page = sb_page (sb_set_crc sb) in
    let here : (p == p) ≡ true = (==_iff p p).1 refl in
    rw (w, r, here, written-valid sb f m)
      (ap some (sb_of-sb_page (sb_set_crc sb) (set_crc-Fits sb f)))

-- a write leaves the other copy as it was
copy_other :
    (d : Device) (p q : ℕ) (bytes : List ℕ)
    → p ≢ q
    → sb_copy (write_page d p bytes).0 q ≡ sb_copy d q
unfolding sb_copy write_page
copy_other d p q bytes n =
    let apart : (q == p) ≡ false = ground arith in
    elim (Bool-cases (eq_ℤ (d.write_rc p) kv_eok)) [ inl e ↦ rw (e, apart) | inr e ↦ rw (e, apart) ]

-- a write changes no answer of the environment
env-write_page :
    (d : Device) (p : ℕ) (bytes : List ℕ)
    → ((write_page d p bytes).0.write_rc ≡ d.write_rc) × ((write_page d p bytes).0.torn ≡ d.torn)
unfolding write_page
env-write_page d p bytes = elim (Bool-cases (eq_ℤ (d.write_rc p) kv_eok)) [
  | inl e ↦ rw e (refl, refl)
  | inr e ↦ rw e (refl, refl)
]

-- a failed write that leaves no valid page leaves no copy there
copy_torn :
    (d : Device) (p : ℕ) (bytes : List ℕ)
    → eq_ℤ (d.write_rc p) kv_eok ≡ false
    → sb_valid (d.torn p bytes) ≡ false
    → sb_copy (write_page d p bytes).0 p ≡ none
unfolding sb_copy write_page
copy_torn d p bytes w t =
    let here : (p == p) ≡ true = (==_iff p p).1 refl in rw (w, here, t) (ground arith)

-- the two pages of the superblock are chosen by the epoch's parity
abbrev pub other_page : ℕ → ℕ
other_page epoch = if epoch % 2 == 0 then 1 else 0

dst-ne-other : (epoch : ℕ) → sb_dst epoch ≢ other_page epoch
dst-ne-other epoch = ground arith

-- no copy on the page, or one that is older than `epoch`
abbrev pub IsOlder : Option Superblock → ℕ → Type 0
IsOlder none epoch = Unit {0}
IsOlder (some sb) epoch = sb.cur_epoch < epoch

choose_first :
    (sb : Superblock) (c : Option Superblock)
    → IsOlder c sb.cur_epoch
    → (sb_choose (some sb) c ≡ ok sb) × (sb_choose c (some sb) ≡ ok sb)
unfolding sb_choose sb_newer
choose_first sb none h = (refl, refl)
choose_first sb (some old) h = ground arith

load_newest :
    (d : Device) (epoch : ℕ) (sb : Superblock)
    → sb_copy d (sb_dst epoch) ≡ some sb
    → IsOlder (sb_copy d (other_page epoch)) sb.cur_epoch
    → sb_load d ≡ ok sb
unfolding sb_load
load_newest d epoch sb e h = elim (Bool-cases (epoch % 2 == 0)) [
  | inl p ↦ let e₀ = rw p at e in let h₁ = rw p at h in rw e₀ (choose_first sb (sb_copy d 1) h₁).0
  | inr p ↦ let e₀ = rw p at e in let h₁ = rw p at h in rw e₀ (choose_first sb (sb_copy d 0) h₁).1
]

draft-magic : (rm : RegionMgr) (now_s : ℕ) → (sb_draft rm now_s).magic ≡ kv_sb_magic
unfolding sb_draft
draft-magic rm now_s = refl

draft-epoch : (rm : RegionMgr) (now_s : ℕ) → (written rm now_s).cur_epoch ≡ rm.epoch_counter
unfolding sb_draft sb_set_crc
draft-epoch rm now_s = refl

-- After a superblock write that succeeds on a readable page, sb_load returns the superblock
-- written, if its fields fit and the other page holds no valid copy or one of an older epoch.
pub sb_load-sb_write :
    (rm : RegionMgr) (now_s : ℕ)
    → Fits (sb_draft rm now_s)
    → rm.dev.write_rc (sb_dst rm.epoch_counter) ≡ kv_eok
    → rm.dev.read_rc (sb_dst rm.epoch_counter) ≡ kv_eok
    → IsOlder (sb_copy rm.dev (other_page rm.epoch_counter)) rm.epoch_counter
    → sb_load (sb_write rm now_s).0.dev ≡ ok (written rm now_s)
unfolding sb_write
sb_load-sb_write rm now_s f w r older =
    let e = rm.epoch_counter in
    let sb = sb_draft rm now_s in
    let page = sb_page (sb_set_crc sb) in
    load_newest (write_page rm.dev (sb_dst e) page).0 e (written rm now_s)
      (copy_written rm.dev (sb_dst e) sb f (draft-magic rm now_s) w r)
      (rw (copy_other rm.dev (sb_dst e) (other_page e) page (dst-ne-other e), draft-epoch rm now_s)
        older)

-- the next epoch's write goes to the other page
dst-suc : (epoch : ℕ) → sb_dst (epoch + 1) ≡ other_page epoch
dst-suc epoch = ground arith

-- `epoch_counter++`, as before each further superblock write
abbrev pub next_epoch : RegionMgr → RegionMgr
next_epoch rm = record rm { epoch_counter = rm.epoch_counter + 1 }

-- If a superblock write succeeds on a readable page, and the write of the next epoch fails and
-- leaves no valid copy on its page, sb_load still returns the superblock written before.
pub sb_load_torn :
    (rm : RegionMgr) (now_s later_s : ℕ)
    → Fits (sb_draft rm now_s)
    → rm.dev.write_rc (sb_dst rm.epoch_counter) ≡ kv_eok
    → rm.dev.read_rc (sb_dst rm.epoch_counter) ≡ kv_eok
    → rm.dev.write_rc (sb_dst (rm.epoch_counter + 1)) ≢ kv_eok
    → ((bytes : List ℕ) → sb_valid (rm.dev.torn (sb_dst (rm.epoch_counter + 1)) bytes) ≡ false)
    → let rm₁ = next_epoch (sb_write rm now_s).0 in
      sb_load (sb_write rm₁ later_s).0.dev ≡ ok (written rm now_s)
unfolding sb_write
sb_load_torn rm now_s later_s f w r fails torn =
    let e = rm.epoch_counter in
    let sb = sb_draft rm now_s in
    let page = sb_page (sb_set_crc sb) in
    let d₁ = (write_page rm.dev (sb_dst e) page).0 in
    let rm₁ : RegionMgr = record rm { dev = d₁; epoch_counter = e + 1 } in
    let page₂ = sb_page (sb_set_crc (sb_draft rm₁ later_s)) in
    let d₂ = (write_page d₁ (sb_dst (e + 1)) page₂).0 in
    let env = env-write_page rm.dev (sb_dst e) page in
    let back : sb_dst (e + 1) ≢ sb_dst e = λ p. dst-ne-other e (sym p ∙ dst-suc e) in
    let gone : sb_copy d₂ (sb_dst (e + 1)) ≡ none =
      copy_torn d₁ (sb_dst (e + 1)) page₂
        (rw env.0 (ground (arith, eq_ℤ_iff (rm.dev.write_rc (sb_dst (e + 1))) kv_eok)))
        (rw env.1 (torn page₂)) in
    load_newest d₂ e (written rm now_s)
      (copy_other d₁ (sb_dst (e + 1)) (sb_dst e) page₂ back
        ∙ copy_written rm.dev (sb_dst e) sb f (draft-magic rm now_s) w r)
      (rw (← dst-suc e, gone) tt)
