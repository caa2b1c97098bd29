-- ===== src/Channel/Refine.antt =====
-- src/channel.rs: a sequence of calls, one after the other, against a bounded queue that knows how
-- many senders and receivers are left.
use atomics_for_peace_and_sy.Base.{
  ℕ, ◌+◌, ◌^◌, ◌≤◌, ◌<◌, ◌≡◌, refl, ◌≢◌, List, [], ◌∷◌, arith, length, ap,
}
use atomics_for_peace_and_sy.Futex.{AtomicWait}
use atomics_for_peace_and_sy.RingBuffer.{usize_mod}
use atomics_for_peace_and_sy.Channel.{World, Thread}
use atomics_for_peace_and_sy.Channel.Promise.{
  Promise, Op, Reply, returned, waits, unfinished, promised, go_on, promised_replies, replies,
  Keeps,
}
use atomics_for_peace_and_sy.Channel.Served.{op_Served}

go_on-eq :
    {T : Type 0} {a b : List (Reply T)} (r : Reply T) → (r ≢ waits → a ≡ b) → go_on r a ≡ go_on r b
go_on-eq (returned o) h = h (λ e. cc)
go_on-eq waits h = refl
go_on-eq unfinished h = refl

-- A channel over a ring of 2 ^ k slots, used by one thread that nothing disturbs, gives the replies
-- that the bounded queue gives, for every sequence of calls of its handles, from any state in which
-- it keeps a promise: what each call returns, in which order the messages come out, which error it
-- gives, and whether it waits. The index `head` and the number of senders must not be near the end
-- of their ranges. Each call has returned, or waits, after ten steps.
pub channel_refines :
    {T : Type 0} (futex : AtomicWait) (k i : ℕ) (ops : List (Op T)) (s : Promise T) (w : World T)
    (t : Thread T)
    → Keeps (2 ^ k) s w t
    → w.channel.ring.head + length ops < usize_mod
    → w.channel.senders_count + length ops ≤ 2 ^ 63
    → replies futex (2 ^ k) i (w, t) ops ≡ promised_replies (2 ^ k) s ops
unfolding replies promised_replies
channel_refines futex k i [] s w t h room few = refl
channel_refines futex k i (op ∷ ops) s w t h room few =
    let (r, keeps, head, senders) = op_Served futex k i s w t h (omega arith) (omega arith) op in
    rw r (
      ap (◌∷◌ (promised (2 ^ k) s op).1) (
        go_on-eq (promised (2 ^ k) s op).1 (λ ne.
          channel_refines futex k i ops (promised (2 ^ k) s op).0 _ _ (keeps ne) (omega arith)
            (omega arith))))
