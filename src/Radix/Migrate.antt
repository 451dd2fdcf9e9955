-- ===== src/Radix/Migrate.antt =====
-- `ovf_migrate` of src/radix.cpp: a node's own edges move to an overflow table.
use kvtier.Prelude.{
  ℕ, ◌+◌, ◌≤◌, ◌≡◌, ◌≢◌, refl, sym, subst, Option, some, List, [], length, take, replicate, arith,
  ◌↔◌, take_all,
}
use kvtier.Radix.{
  RadixEdge, RadixOvf, RadixNode, no_edge, ovf_fill, kv_inline_slots, live_edges, ovf_grow,
  ovf_migrate,
}
use kvtier.Radix.Edges.{used_slots, used_slots-live, used_slots-le}
use kvtier.Radix.Table.{Holds}
use kvtier.Radix.Overflow.{IsCopy, ovf_fill_lem, IsCopy-Holds}
use kvtier.Radix.Add.{IsOvf}
use kvtier.Radix.Node.{HasEdge, IsInline, IsOverflow}

-- the overflow table that `ovf_migrate` makes
unfoldable pub moved : RadixNode → RadixOvf
moved n = record {
  cap_slots = 16;
  used = 0 + live_edges n.slots;
  n_del = 0;
  slots = ovf_fill 16 (ovf_fill 16 (replicate 16 no_edge) 0 []) kv_inline_slots n.slots;
}

unfoldable pub migrated : RadixNode → RadixNode
migrated n = record n {
  ovf_flag = 1;
  slots = replicate kv_inline_slots no_edge;
  ovf = some (moved n);
}

pub migrate-moved : (n : RadixNode) → ovf_migrate n ≡ migrated n
unfolding ovf_migrate ovf_grow moved migrated
migrate-moved n = refl

fill_zero : (ncap : ℕ) (fresh old : List RadixEdge) → ovf_fill ncap fresh 0 old ≡ fresh
unfolding ovf_fill
fill_zero ncap fresh old = refl

moved-IsCopy : (n : RadixNode) → IsInline n → IsCopy 4 kv_inline_slots n.slots (moved n).slots
unfolding moved
moved-IsCopy n w =
    subst
      (λ (x : List RadixEdge).
        IsCopy 4 kv_inline_slots n.slots (ovf_fill 16 x kv_inline_slots n.slots))
      (sym (fill_zero 16 (replicate 16 no_edge) []))
      (ovf_fill_lem 4 kv_inline_slots n.slots (omega arith) (omega arith) w.table)

pub moved-IsOvf : (m : ℕ) (n : RadixNode) → IsInline n → IsOvf m (moved n)
unfolding moved
moved-IsOvf m n w =
    let copy = moved-IsCopy n w in
    let live : live_edges n.slots ≡ used_slots n.slots = used_slots-live n.slots w.table.alive in
    let le = used_slots-le n.slots in
    let all : take kv_inline_slots n.slots ≡ n.slots = take_all kv_inline_slots n.slots w.len in
    let used : used_slots (moved n).slots ≤ used_slots (take kv_inline_slots n.slots) = copy.used in
    let used' : used_slots (moved n).slots ≤ used_slots n.slots = rw all at used in
    record {
      bits = 4;
      bits_ge = omega arith;
      cap_eq = refl;
      hashed = copy.hashed;
      used_le = omega (arith, used', live);
      load = omega (arith, live, le, w.len);
      no_del = refl;
      size = omega arith;
      few = omega (arith, live, le, w.len);
    }

pub migrate_lem :
    (m : ℕ) (n : RadixNode)
    → IsInline n
    → IsOverflow m (migrated n) (moved n)
      × ((k : ℕ) (c : Option ℕ) → k ≢ 0 → HasEdge (migrated n) k c ↔ HasEdge n k c)
unfolding migrated
migrate_lem m n w =
    let copy = moved-IsCopy n w in
    let len : length n.slots ≤ kv_inline_slots = omega (arith, w.len) in
    (
      record { flag = refl; slots = refl; ovf = refl; table = moved-IsOvf m n w },
      λ k c nz.
          let (there, back) = IsCopy-Holds copy len k c nz in
          (
            λ p. (let q = there p in rw w.flag q),
            λ p. (let q : Holds n.slots k c = rw w.flag at p in back q),
          ),
    )
