-- ===== src/Dram/Link.antt =====
-- The allocation of an entry in src/dram.cpp, and its place in a shard.
use kvtier.Prelude.{
  ℕ, suc, ◌+◌, ◌<◌, ◌≡◌, refl, ◌∙◌, ap, sym, true, false, Option, some, List, [], ◌∷◌, ◌++◌,
  if◌then◌else◌, ltb, leb, inl, inr, Bool-cases, length, get_or, set, get_or-set_self,
  get_or-append_left, get_or-append_last, length-append, arith,
}
use kvtier.Common.{u64}
use kvtier.Dram.Types.{
  DramEntry, DramShard, DramCache, Block, in_arena, on_heap, entry_at, no_entry, entry_total,
  kv_dram_n_classes,
}
use kvtier.Dram.{bucket_of, class_alloc, cap_of, queue_push_tail}
use kvtier.Dram.Ops.{entry_link}
use kvtier.Dram.Queue.{
  Mem, sum_of, sum_of_ext, sum_of-append, append-Mem, append-Mem_old, append-NoDup,
}
use kvtier.Dram.Sieve.{IsShard}
use kvtier.Dram.Stays.{IsFrame, IsFirst}

-- what `class_alloc` gives when `malloc` does not fail
pub record IsAlloc (d : DramCache) (r : DramCache × Option Block) : Type 0 where
  pub block : Block
  pub given : r.1 ≡ some block
  pub frame : IsFrame d r.0
  pub heap : r.0.heap ≡ d.heap

alloc_bump :
    (d : DramCache) (cls : ℕ)
    → IsAlloc d (
        if leb (d.bump + cap_of cls) d.arena_len
        then (record d { bump = d.bump + cap_of cls }, some (in_arena d.bump))
        else (d, some on_heap))
alloc_bump d cls = elim (Bool-cases (leb (d.bump + cap_of cls) d.arena_len)) [
  | inl t ↦ rw t (record {
    block = in_arena d.bump;
    given = refl;
    frame = record { n_shards = refl; shards = refl };
    heap = refl;
  })
  | inr t ↦ rw t (record {
    block = on_heap;
    given = refl;
    frame = record { n_shards = refl; shards = refl };
    heap = refl;
  })
]

alloc_class :
    (d : DramCache) (cls : ℕ) (free : List ℕ)
    → IsAlloc d (elim free [
      | p ∷ rest ↦ (record d { freelists = set d.freelists cls rest }, some (in_arena p))
      | [] ↦
          if leb (d.bump + cap_of cls) d.arena_len
          then (record d { bump = d.bump + cap_of cls }, some (in_arena d.bump))
          else (d, some on_heap)
    ])
alloc_class d cls [] = alloc_bump d cls
alloc_class d cls (p ∷ rest) = record {
  block = in_arena p;
  given = refl;
  frame = record { n_shards = refl; shards = refl };
  heap = refl;
}

pub class_alloc_lem : (d : DramCache) (cls : ℕ) → IsAlloc d (class_alloc true d cls)
unfolding class_alloc
class_alloc_lem d cls = elim (Bool-cases (ltb cls kv_dram_n_classes)) [
  | inl t ↦ rw t (alloc_class d cls (get_or d.freelists cls []))
  | inr t ↦ rw t (record {
    block = on_heap;
    given = refl;
    frame = record { n_shards = refl; shards = refl };
    heap = refl;
  })
]

module _ (d : DramCache) (sh : DramShard) (e : DramEntry) where
  pub linked_heap : (entry_link d sh e).0.heap ≡ d.heap ++ (e ∷ [])
  unfolding entry_link
  linked_heap = refl

  pub linked_queue : (entry_link d sh e).1.queue ≡ sh.queue ++ (length d.heap ∷ [])
  unfolding entry_link queue_push_tail
  linked_queue = refl

  pub linked_hand : (entry_link d sh e).1.s_hand ≡ sh.s_hand
  unfolding entry_link queue_push_tail
  linked_hand = refl

  pub linked_budget : (entry_link d sh e).1.budget ≡ sh.budget
  unfolding entry_link queue_push_tail
  linked_budget = refl

  pub linked_bytes :
      (entry_link d sh e).1.bytes ≡ u64 (sh.bytes + entry_total e.n_records e.buf_len)
  unfolding entry_link queue_push_tail
  linked_bytes = refl

  pub linked-IsFrame : IsFrame d (entry_link d sh e).0
  unfolding entry_link
  linked-IsFrame = record { n_shards = refl; shards = refl }

  pub linked_old :
      (q : ℕ) → q < length d.heap → entry_at (entry_link d sh e).0.heap q ≡ entry_at d.heap q
  unfolding entry_link
  linked_old q l = get_or-append_left d.heap (e ∷ []) q no_entry l

  pub linked_new : entry_at (entry_link d sh e).0.heap (length d.heap) ≡ e
  unfolding entry_link
  linked_new = get_or-append_last d.heap e no_entry

  pub linked_sum :
      (f : DramEntry → ℕ)
      → IsShard d.heap sh
      → sum_of (λ p. f (entry_at (entry_link d sh e).0.heap p)) (entry_link d sh e).1.queue
        ≡ sum_of (λ p. f (entry_at d.heap p)) sh.queue + f e
  linked_sum f w =
      let g : ℕ → ℕ = λ p. f (entry_at (entry_link d sh e).0.heap p) in
      ap (sum_of g) linked_queue
      ∙ sum_of-append g sh.queue (length d.heap)
      ∙ omega (
        arith,
        sum_of_ext g (λ p. f (entry_at d.heap p)) sh.queue
            (λ q m. ap f (linked_old q (w.allocated q m))),
        ap f linked_new,
      )

  pub linked-IsShard : IsShard d.heap sh → IsShard (entry_link d sh e).0.heap (entry_link d sh e).1
  linked-IsShard w =
      let len : length (entry_link d sh e).0.heap ≡ suc (length d.heap) =
        ap length linked_heap ∙ length-append d.heap (e ∷ []) ∙ omega arith in
      let fresh : Mem (length d.heap) sh.queue → ⊥ =
        λ m. (let l = w.allocated (length d.heap) m in omega (arith, l)) in
      record {
        nodup = rw linked_queue (append-NoDup (length d.heap) sh.queue fresh w.nodup);
        allocated = λ p m. elim (append-Mem p (length d.heap) sh.queue (rw linked_queue at m)) [
          | inl n ↦ omega (arith, w.allocated p n, len)
          | inr n ↦ omega (arith, n, len)
        ];
        hand = λ h q.
            rw linked_queue
              (append-Mem_old h (length d.heap) sh.queue (w.hand h (sym linked_hand ∙ q)));
        bytes =
            let s = linked_sum (λ x. entry_total x.n_records x.buf_len) w in
            omega (arith, linked_bytes, w.bytes, s);
      }

  pub linked-IsFirst :
      (b : ℕ)
      → b < length sh.buckets
      → bucket_of e.prefix_id e.group_idx ≡ b
      → IsFirst
          (length d.heap)
          b
          (record e { visited = false })
          (entry_link d sh e).0
          (entry_link d sh e).1
  unfolding entry_link queue_push_tail
  linked-IsFirst b l q = record {
    rest = get_or sh.buckets b [];
    bucket = rw q (get_or-set_self sh.buckets b (length d.heap ∷ get_or sh.buckets b []) [] l);
    entry =
        ap (λ (x : DramEntry). record x { visited = false }) (get_or-append_last d.heap e no_entry);
  }
