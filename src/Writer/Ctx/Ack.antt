-- ===== src/Writer/Ctx/Ack.antt =====
-- A put of src/writer.cpp is acknowledged once, with its first error.
use kvtier.Prelude.{
  ℕ, suc, ◌≡◌, refl, ap, ◌∙◌, sym, true, false, List, [], ◌∷◌, ◌++◌, if◌then◌else◌, ℤ, pos, eq_ℤ,
  eq_ℤ_iff, sub_ℕ, Bool, Bool-cases, inl, inr, arith,
}
use kvtier.Common.{kv_eok}
use kvtier.Writer.Ctx.{
  PutCtx, put_ctx_unref, put_ctx_set_err, CtxOp, set_err, unref, run_ops, count_err,
}

-- how many of the requests are done
abbrev pub unrefs : List CtxOp → ℕ
unrefs [] = 0
unrefs (set_err err ∷ ops) = unrefs ops
unrefs (unref ∷ ops) = suc (unrefs ops)

-- the first error from `err` on
abbrev pub first_err : ℤ → List CtxOp → ℤ
first_err err [] = err
first_err err (set_err e ∷ ops) = if eq_ℤ err kv_eok then first_err e ops else first_err err ops
first_err err (unref ∷ ops) = first_err err ops

abbrev pub ctx : Bool → Bool → ℕ → ℤ → List ℤ → Bool → ℕ → PutCtx
ctx c ack n err acks deleted stat = record {
  refs = pos n;
  err = err;
  c = c;
  ack = ack;
  acks = acks;
  deleted = deleted;
  stat_puts_err = stat;
}

unref_more :
    (c ack : Bool) (n : ℕ) (err : ℤ) (acks : List ℤ) (deleted : Bool) (stat : ℕ)
    → put_ctx_unref (ctx c ack (suc (suc n)) err acks deleted stat)
      ≡ ctx c ack (suc n) err acks deleted stat
unfolding put_ctx_unref
unref_more c ack n err acks deleted stat =
    let more : eq_ℤ (pos (suc (suc n))) (pos 1) ≡ false = ground arith in
    let left : sub_ℕ (pos (suc (suc n))) 1 ≡ pos (suc n) = ground arith in rw (more, left) refl

-- while a reference is left
run_ops_open :
    (c ack : Bool) (ops : List CtxOp) (err : ℤ) (acks : List ℤ) (deleted : Bool) (stat : ℕ)
    → run_ops (ctx c ack (suc (unrefs ops)) err acks deleted stat) ops
      ≡ ctx c ack 1 (first_err err ops) acks deleted stat
unfolding run_ops put_ctx_set_err
run_ops_open c ack [] err acks deleted stat = refl
run_ops_open c ack (set_err e ∷ ops) err acks deleted stat = elim (Bool-cases (eq_ℤ e kv_eok)) [
  | inl f ↦ elim (Bool-cases (eq_ℤ err kv_eok)) [
    | inl g ↦
        let same : err ≡ e = (eq_ℤ_iff err kv_eok).0 g ∙ sym ((eq_ℤ_iff e kv_eok).0 f) in
        rw (f, g)
          (run_ops_open c ack ops err acks deleted stat
            ∙ ap (λ (x : ℤ). ctx c ack 1 (first_err x ops) acks deleted stat) same)
    | inr g ↦ rw (f, g) (run_ops_open c ack ops err acks deleted stat)
  ]
  | inr f ↦ elim (Bool-cases (eq_ℤ err kv_eok)) [
    | inl g ↦ rw (f, g) (run_ops_open c ack ops e acks deleted stat)
    | inr g ↦ rw (f, g) (run_ops_open c ack ops err acks deleted stat)
  ]
]
run_ops_open c ack (unref ∷ ops) err acks deleted stat =
    ap (λ (x : PutCtx). run_ops x ops) (unref_more c ack (unrefs ops) err acks deleted stat)
    ∙ run_ops_open c ack ops err acks deleted stat

unref_last :
    (c ack : Bool) (err : ℤ) (acks : List ℤ) (deleted : Bool) (stat : ℕ)
    → put_ctx_unref (ctx c ack 1 err acks deleted stat)
      ≡ ctx c ack 0 err
          (if ack then acks ++ (err ∷ []) else acks)
          true
          (if c then count_err err stat else stat)
unfolding put_ctx_unref
unref_last c ack err acks deleted stat = refl

-- A context of a put starts with one reference more than the requests that the sequence of steps
-- drops a reference for. While the sequence runs, `ack` is not called and the context stays. The
-- drop of the last reference then deletes the context, and, where they are not null, calls `ack`
-- once, with the first error that was set or with KV_EOK, and has the cache count an error if
-- there was one.
pub put_ctx_acked :
    (c ack : Bool) (ops : List CtxOp) (stat : ℕ)
    → (run_ops (ctx c ack (suc (unrefs ops)) kv_eok [] false stat) ops
        ≡ ctx c ack 1 (first_err kv_eok ops) [] false stat)
      × (put_ctx_unref (run_ops (ctx c ack (suc (unrefs ops)) kv_eok [] false stat) ops)
          ≡ ctx c ack 0
              (first_err kv_eok ops)
              (if ack then first_err kv_eok ops ∷ [] else [])
              true
              (if c then count_err (first_err kv_eok ops) stat else stat))
put_ctx_acked c ack ops stat =
    let e = run_ops_open c ack ops kv_eok [] false stat in
    (e, ap put_ctx_unref e ∙ unref_last c ack (first_err kv_eok ops) [] false stat)
