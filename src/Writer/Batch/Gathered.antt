-- ===== src/Writer/Batch/Gathered.antt =====
-- The inner loop of `writer_thread` in src/writer.cpp: which requests join a batch, and that they
-- fit its buffer.
use kvtier.Prelude.{
  ℕ, ◌*◌, ◌≤◌, ◌≡◌, Bool, true, none, some, false, ◌⊎◌, List, [], ◌∷◌, ◌++◌, length, take, drop,
}
use kvtier.Chunk.{payload_npages}
use kvtier.Writer.Batch.{PutReq, Gathering, need_pages}

-- each request fits a buffer of `size` bytes
abbrev pub AllFit : ℕ → List PutReq → Type 0
AllFit size [] = Unit
AllFit size (r ∷ rs) = (payload_npages r.data_len * 4096 ≤ size) × AllFit size rs

-- Where the requests from the `n`-th on are: the queue goes on with them; or the first of them did
-- not fit, and went to the end of the queue or, where that was full, was dropped.
pub data IsRest (push_ok : Bool) (others : List PutReq) (r : Gathering) : Type 0 where
  kept : r.queue ≡ others → r.lost ≡ none → IsRest push_ok others r
  to_end :
      (x : PutReq) (xs : List PutReq)
      → others ≡ x ∷ xs
      → push_ok ≡ true
      → r.queue ≡ xs ++ (x ∷ [])
      → r.lost ≡ none
      → IsRest push_ok others r
  dropped :
      (x : PutReq) (xs : List PutReq)
      → others ≡ x ∷ xs
      → push_ok ≡ false
      → r.queue ≡ xs
      → r.lost ≡ some x
      → IsRest push_ok others r

-- The first requests of `q` have joined `reqs`.
pub record Gathered (push_ok : Bool) (reqs q : List PutReq) (size : ℕ) (r : Gathering)
    : Type 0 where
  pub n : ℕ
  pub joined : r.reqs ≡ reqs ++ take n q
  pub rest : IsRest push_ok (drop n q) r
  pub used : r.used ≡ need_pages r.reqs * 4096
  pub fits : r.used ≤ size
  pub few : length r.reqs ≤ 512

-- The batch was full before the loop: it stays, and `first` is dropped.
pub record IsFull (min_bytes : ℕ) (reqs : List PutReq) (used : ℕ) (first : PutReq) (q : List PutReq)
    (r : Gathering) : Type 0 where
  pub full : (512 ≤ length reqs) ⊎ (min_bytes ≤ used)
  pub same : (r.reqs ≡ reqs) × (r.used ≡ used)
  pub queue : r.queue ≡ q
  pub lost : r.lost ≡ some first
