-- ===== src/Writer/Examples.antt =====
-- src/writer.cpp on a ring of 16 slots and on a device of three regions.
use kvtier.Prelude.{
  ℕ, zero, suc, ◌+◌, ◌^◌, ◌≤◌, ◌<◌, ◌≡◌, ◌≢◌, refl, ap, ◌⊎◌, Option, none, some, [], ◌∷◌, take,
  length, ℤ, neg, pos, false, arith, List, true, if◌then◌else◌, ◌==◌, ltb,
}
use kvtier.Common.{kv_eok, kv_efull}
use kvtier.Writer.Ring.{
  MpscRing, mpsc_init, PushPc, outside, loaded, fetched, resting, System, Reach, start, later,
  call_push, push, call_pop, pop, push_turn, pop_turn, push_step, pop_step, diff_negative,
  idle_system, mpsc_push, mpsc_pop,
}
use kvtier.Writer.Ctx.{put_ctx_unref, CtxOp, set_err, unref, run_ops}
use kvtier.Writer.Ctx.Ack.{ctx, put_ctx_acked}
use kvtier.Writer.Ring.Invariant.{place, low, request}
use kvtier.Writer.Ring.Queue.{mpsc_fifo}
use kvtier.Writer.Ring.Calls.{mpsc_push_full, mpsc_pop_null, mpsc_push_alone, mpsc_pop_alone}

abbrev ring : MpscRing
ring = record { slots = λ i. record { seq = i; ptr = 0 }; mask = 15; tail = 0; head = 0 }

-- a state that is reached
record Run : Type 0 where
  last : System
  reach : Reach 4 last

fresh : Run
unfolding mpsc_init
fresh = record { last = idle_system ring; reach = start refl }

abbrev push_call : (i v : ℕ) {rc : Option ℤ} (r : Run) → r.last.pushers i ≡ outside rc → Run
push_call i v r e = record { last = _; reach = later r.reach (call_push i v e) }

abbrev pushes : ℕ → ℕ → Run → Run
pushes i zero r = r
pushes i (suc n) r =
    pushes i n (record { last = push_turn r.last i; reach = later r.reach (push i) })

abbrev pop_call : {x : Option ℕ} (r : Run) → r.last.popper ≡ resting x → Run
pop_call r e = record { last = _; reach = later r.reach (call_pop e) }

abbrev pops : ℕ → Run → Run
pops zero r = r
pops (suc n) r = pops n (record { last = pop_turn r.last; reach = later r.reach pop })

-- thread 1 has a place, and thread 0 pushes behind it
both_claimed : Run
unfolding fresh push_turn push_step
both_claimed = pushes 0 5 (push_call 0 9 (pushes 1 3 (push_call 1 7 fresh refl)) refl)

-- thread 1 goes on, and 7 is popped
one_popped : Run
unfolding both_claimed fresh push_turn push_step pop_turn pop_step
one_popped = pops 5 (pop_call (pushes 1 2 both_claimed) refl)

one_popped_lem : (one_popped.last.out ≡ 7 ∷ []) × (one_popped.last.claims ≡ 7 ∷ 9 ∷ [])
unfolding one_popped both_claimed fresh push_turn push_step pop_turn pop_step
one_popped_lem = (refl, refl)

one_popped_few : length one_popped.last.claims + 2 ^ 4 < 2 ^ 63
one_popped_few = omega (arith, ap length one_popped_lem.1)

mpsc_fifo_example :
    (one_popped.last.out ≡ take one_popped.last.ring.head one_popped.last.claims)
    × (low one_popped.last.ring.head one_popped.last.popper ≤ length one_popped.last.claims)
    × (length one_popped.last.claims ≤ low one_popped.last.ring.head one_popped.last.popper + 2 ^ 4)
mpsc_fifo_example = mpsc_fifo (omega arith) one_popped.reach one_popped_few

-- the place of thread 1 comes first, and it has not written its slot
pop_waits : Run
unfolding both_claimed fresh push_turn push_step pop_turn pop_step
pop_waits = pops 1 (pop_call both_claimed refl)

pop_waits_lem :
    (pop_waits.last.popper ≡ fetched 0)
    × ((pop_turn pop_waits.last).popper ≡ resting none)
    × (pop_waits.last.claims ≡ 7 ∷ 9 ∷ [])
unfolding pop_waits both_claimed fresh push_turn push_step pop_turn pop_step
pop_waits_lem = (refl, refl, refl)

mpsc_pop_null_example :
    (length pop_waits.last.claims ≡ pop_waits.last.ring.head)
    ⊎ ((i : ℕ) × (place (pop_waits.last.pushers i) ≡ some pop_waits.last.ring.head))
mpsc_pop_null_example =
    mpsc_pop_null (omega arith) pop_waits.reach (omega (arith, ap length pop_waits_lem.2))
      pop_waits_lem.0 pop_waits_lem.1

mpsc_push_alone_example :
    (mpsc_push 2 pop_waits.last.ring 5).1
    ≡ outside (
        some (
          if ltb
            (length pop_waits.last.claims)
            (low pop_waits.last.ring.head pop_waits.last.popper + 2 ^ 4)
          then kv_eok
          else neg kv_efull))
mpsc_push_alone_example =
    mpsc_push_alone 2 5 (omega arith) pop_waits.reach (omega (arith, ap length pop_waits_lem.2))

-- `n` pushes of thread 0, one after the other
push_outside : (r : Run) (v : ℕ) (c : PushPc) → r.last.pushers 0 ≡ c → Run
push_outside r v (outside rc) e = pushes 0 5 (push_call 0 v r e)
push_outside r v c e = r

push_all : ℕ → Run
unfolding push_outside
push_all zero = fresh
push_all (suc n) = push_outside (push_all n) n ((push_all n).last.pushers 0) refl

-- all slots are taken, and thread 0 has loaded the tail for one more
sixteen : Run
unfolding push_all push_outside fresh push_turn push_step
sixteen = pushes 0 1 (push_call 0 77 (push_all 16) refl)

sixteen_lem :
    (sixteen.last.pushers 0 ≡ loaded 77 16)
    × ((push_turn sixteen.last 0).pushers 0 ≡ outside (some (neg kv_efull)))
    × (length sixteen.last.claims ≡ 16)
unfolding sixteen push_all push_outside fresh push_turn push_step diff_negative
sixteen_lem = (refl, refl, refl)

mpsc_push_full_example :
    length sixteen.last.claims ≡ low sixteen.last.ring.head sixteen.last.popper + 2 ^ 4
mpsc_push_full_example =
    mpsc_push_full (omega arith) sixteen.reach (omega (arith, sixteen_lem.2)) sixteen_lem.0
      sixteen_lem.1

-- one push is done
one : Run
unfolding push_all push_outside fresh push_turn push_step
one = push_all 1

one_lem : (one.last.popper ≡ resting none) × (one.last.ring.head ≡ 0) × (length one.last.claims ≡ 1)
unfolding one push_all push_outside fresh push_turn push_step
one_lem = (refl, refl, refl)

one_free : (i : ℕ) → place (one.last.pushers i) ≢ some one.last.ring.head
unfolding one push_all push_outside fresh push_turn push_step
one_free zero e = let e' : ◌≡◌ {A = Option ℕ} none (some 0) = e in absurd (cc e')
one_free (suc i) e =
    let other : (suc i == 0) ≡ false = ground arith in
    let e' : ◌≡◌ {A = Option ℕ} none (some 0) = rw other at e in absurd (cc e')

mpsc_pop_alone_example :
    (mpsc_pop one.last.ring).1 ≡ resting (some (request one.last.claims one.last.ring.head))
mpsc_pop_alone_example =
    mpsc_pop_alone (omega arith) one.reach (omega (arith, one_lem.2)) one_lem.0
      (omega (arith, one_lem.1, one_lem.2)) one_free

-- three requests, the second of which fails
abbrev three : List CtxOp
three = unref ∷ set_err (pos 6) ∷ unref ∷ set_err (pos 8) ∷ []

put_ctx_acked_example :
    (run_ops (ctx true true 3 kv_eok [] false 0) three ≡ ctx true true 1 (pos 6) [] false 0)
    × (put_ctx_unref (run_ops (ctx true true 3 kv_eok [] false 0) three)
        ≡ ctx true true 0 (pos 6) (pos 6 ∷ []) true 1)
put_ctx_acked_example = put_ctx_acked true true three 0
