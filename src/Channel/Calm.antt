-- ===== src/Channel/Calm.antt =====
-- src/channel.rs: where the threads of a channel stand in the code of its ring.
use atomics_for_peace_and_sy.Base.{ℕ, suc, ◌≡◌, ◌⊎◌, inl, inr, Bool, true, false, arith}
use atomics_for_peace_and_sy.RingBuffer
use atomics_for_peace_and_sy.RingBuffer.{
  RingBuffer, Pc as RingPc, push_tail, pop_tail, step as ring_step, new as new_ring, usize_mod,
}
use atomics_for_peace_and_sy.RingBuffer.Indices.{Inv, Place, Apart}
use atomics_for_peace_and_sy.Channel.{
  Popping, draining, send_push, recv_pop, Thread, after_push, after_pop,
}

module _ {T : Type 0} where
  -- where the thread stands in the ring's code
  abbrev pub inner : Thread T → RingPc T
  inner t = elim t.at [
    | send_push try p ↦ p
    | recv_pop popping p ↦ p
    | _ ↦ RingBuffer.outside RingBuffer.no_call
  ]

  -- Outside the ring's calls, or at the start of one.
  abbrev pub Calm : RingPc T → Type 0
  Calm (RingBuffer.outside o) = Unit
  Calm (push_tail try v) = Unit
  Calm (pop_tail try) = Unit
  Calm p = ⊥

  Calm-Place : (size : ℕ) (m : RingBuffer T) (p : RingPc T) → Calm p → Place size m p
  Calm-Place size m (RingBuffer.outside o) h = tt
  Calm-Place size m p h = ground arith

  Calm-Apart : (p q : RingPc T) → Calm p ⊎ Calm q → Apart p q
  Calm-Apart (RingBuffer.outside o) q h = tt
  Calm-Apart p (RingBuffer.outside o) h = ground arith
  Calm-Apart p q h = ground arith

  -- A thread that leaves or enters a call of the ring keeps the ring's invariant.
  pub Calm-Inv :
      {size n left : ℕ} {m : RingBuffer T} {f : ℕ → RingPc T} (g : ℕ → RingPc T)
      → Inv size n left m f
      → ((j : ℕ) → (g j ≡ f j) ⊎ Calm (g j))
      → Inv size n left m g
  Calm-Inv {size} {n} {left} {m} {f} g inv same = record {
    ordered = inv.ordered;
    bounded = inv.bounded;
    fits = inv.fits;
    each = λ j lj. elim (same j) [
      | inl e ↦ rw e (inv.each j lj)
      | inr calm ↦ Calm-Place size m (g j) calm
    ];
    apart = λ j k lj lk ne. elim (same j) [
      | inl e ↦ elim (same k) [
        | inl e' ↦ rw (e, e') (inv.apart j k lj lk ne)
        | inr calm ↦ Calm-Apart (g j) (g k) (inr calm)
      ]
      | inr calm ↦ Calm-Apart (g j) (g k) (inl calm)
    ];
  }

  pub skip-Inv :
      {size n left : ℕ} {m : RingBuffer T} {f : ℕ → RingPc T}
      → Inv size n (suc left) m f
      → Inv size n left m f
  skip-Inv inv = record {
    ordered = inv.ordered;
    bounded = inv.bounded;
    fits = omega (arith, inv.fits);
    each = inv.each;
    apart = inv.apart;
  }

  pub pushed_Calm :
      (try : Bool) (p : RingPc T) (t : Thread T)
      → (inner (record t { at = after_push try p }) ≡ p)
        ⊎ Calm (inner (record t { at = after_push try p }))
  pushed_Calm true (RingBuffer.outside o) t = ground arith
  pushed_Calm false (RingBuffer.outside o) t = ground arith
  pushed_Calm try p t = ground arith

  pub popped_Calm :
      (popping : Popping) (p : RingPc T) (t : Thread T)
      → (inner (record t { at = after_pop popping p }) ≡ p)
        ⊎ Calm (inner (record t { at = after_pop popping p }))
  popped_Calm draining (RingBuffer.outside o) t = ground arith
  popped_Calm popping (RingBuffer.outside o) t = ground arith
  popped_Calm popping p t = ground arith
