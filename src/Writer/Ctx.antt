-- ===== src/Writer/Ctx.antt =====
-- The put contexts of src/writer.cpp: one for each put, shared by the requests that the put is cut
-- into. A change to an atomic counter is one step. The calls of `ack` are recorded; the time of the
-- put and the memory of `staging` are left out, and of `c` and `ack` it is kept whether they are null.
pub mod Ack
use kvtier.Prelude.{ℕ, ◌+◌, Bool, true, List, [], ◌∷◌, ◌++◌, if◌then◌else◌, ℤ, pos, eq_ℤ, sub_ℕ}
use kvtier.Common.{kv_eok, u64}

pub record PutCtx : Type 0 where
  pub refs : ℤ
  pub err : ℤ
  pub c : Bool
  pub ack : Bool
  pub acks : List ℤ
  pub deleted : Bool
  pub stat_puts_err : ℕ

abbrev pub count_err : ℤ → ℕ → ℕ
count_err err n = if eq_ℤ err kv_eok then n else u64 (n + 1)

unfoldable pub put_ctx_init : PutCtx → Bool → PutCtx
put_ctx_init pc ack = record pc { refs = pos 0; err = kv_eok; ack = ack }

unfoldable pub put_ctx_unref : PutCtx → PutCtx
put_ctx_unref pc =
    let left = sub_ℕ pc.refs 1 in
    if eq_ℤ pc.refs (pos 1)
    then record pc {
      refs = left;
      acks = if pc.ack then pc.acks ++ (pc.err ∷ []) else pc.acks;
      deleted = true;
      stat_puts_err = if pc.c then count_err pc.err pc.stat_puts_err else pc.stat_puts_err;
    }
    else record pc { refs = left }

unfoldable pub put_ctx_set_err : PutCtx → ℤ → PutCtx
put_ctx_set_err pc err =
    if eq_ℤ err kv_eok then pc else if eq_ℤ pc.err kv_eok then record pc { err = err } else pc

-- what the requests of a put do to its context, in any order
pub data CtxOp : Type 0 where
  set_err : ℤ → CtxOp
  unref : CtxOp

unfoldable pub run_ops : PutCtx → List CtxOp → PutCtx
run_ops pc [] = pc
run_ops pc (set_err err ∷ ops) = run_ops (put_ctx_set_err pc err) ops
run_ops pc (unref ∷ ops) = run_ops (put_ctx_unref pc) ops
