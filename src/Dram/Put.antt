-- ===== src/Dram/Put.antt =====
-- `dram_put` of src/dram.cpp on one shard.
use kvtier.Prelude.{
  ℕ, ◌^◌, ◌<◌, ◌≡◌, refl, ◌∙◌, ap, sym, subst, true, false, Bool, leb, Option, none, some,
  if◌then◌else◌, length, ℤ, arith,
}
use kvtier.Common.{kv_eok, kv_efull}
use kvtier.Dram.Types.{DramEntry, DramShard, DramCache, Block, entry_size, entry_total}
use kvtier.Dram.{bucket_of, class_alloc, pick_class, sieve_evict}
use kvtier.Dram.Ops.{entry_link, new_entry, put_new, DramPut}
use kvtier.Dram.Stays.{IsFrame, IsFrame-trans, IsFirst, sieve_evict_quiet}
use kvtier.Dram.Link.{IsAlloc, class_alloc_lem, linked-IsFrame, linked-IsFirst}

abbrev weight_of : DramEntry → ℕ
weight_of e = if e.visited then 2 else 1

module _ (d : DramCache) (sh : DramShard) (r : DramPut) where
  total : ℕ
  total = entry_total r.n_recs r.buf_len

  roomy : DramCache
  roomy = (class_alloc true d (pick_class total)).0

  alloc : IsAlloc d (class_alloc true d (pick_class total))
  alloc = class_alloc_lem d (pick_class total)

  -- the new entry
  made : DramEntry
  made = new_entry r (pick_class total) alloc.block

  put_new_step :
      entry_size r.n_recs r.buf_len < 2 ^ 32
      → put_new true d sh r ≡ (
        some kv_eok,
        sieve_evict (entry_link roomy sh made).0 (entry_link roomy sh made).1 (length roomy.heap),
      )
  unfolding put_new total roomy alloc made
  put_new_step l =
      let no_wrap : leb (2 ^ 32) (entry_size r.n_recs r.buf_len) ≡ false = ground (arith, l) in
      ap
        (λ (b : Option Block). elim b as (λ _. Option ℤ × (DramCache × DramShard)) [
          | none ↦ (some kv_efull, (roomy, sh))
          | some x ↦
              let k = entry_link roomy sh (new_entry r (pick_class total) x) in
              if leb (2 ^ 32) (entry_size r.n_recs r.buf_len)
              then (none, (roomy, sh))
              else (some kv_eok, sieve_evict k.0 k.1 (length roomy.heap))
        ])
        alloc.given
      ∙ ap
          (λ (b : Bool).
            let over : Option ℤ × (DramCache × DramShard) = (none, (roomy, sh)) in
            let done : Option ℤ × (DramCache × DramShard) = (
              some kv_eok,
              sieve_evict (entry_link roomy sh made).0 (entry_link roomy sh made).1
                  (length roomy.heap),
            ) in
            if b then over else done)
          no_wrap

  roomy-IsFrame : IsFrame d roomy
  unfolding roomy alloc total
  roomy-IsFrame = alloc.frame

-- what `dram_put` leaves: the new entry, first in its bucket
pub record IsPut (d : DramCache) (r : DramPut) (x : Option ℤ × (DramCache × DramShard))
    : Type 0 where
  pub p : ℕ
  pub block : Block
  pub cls : ℕ
  pub rc : x.0 ≡ some kv_eok
  pub frame : IsFrame d x.1.0
  pub first : IsFirst p (bucket_of r.prefix_id r.group_idx) (new_entry r cls block) x.1.0 x.1.1

pub put_new_first :
    (d : DramCache) (sh : DramShard) (r : DramPut)
    → entry_size r.n_recs r.buf_len < 2 ^ 32
    → bucket_of r.prefix_id r.group_idx < length sh.buckets
    → IsPut d r (put_new true d sh r)
unfolding made
put_new_first d sh r no_wrap l =
    let d' = roomy d sh r in
    let e = made d sh r in
    let k = entry_link d' sh e in
    let (f, first) =
      sieve_evict_quiet (length d'.heap) (bucket_of r.prefix_id r.group_idx) e k.0 k.1
        (linked-IsFirst d' sh e (bucket_of r.prefix_id r.group_idx) l refl) in
    subst (IsPut d r) (sym (put_new_step d sh r no_wrap)) (record {
      p = length d'.heap;
      block = (alloc d sh r).block;
      cls = pick_class (total d sh r);
      rc = refl;
      frame = IsFrame-trans (roomy-IsFrame d sh r) (IsFrame-trans (linked-IsFrame d' sh e) f);
      first = first;
    })
