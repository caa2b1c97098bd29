-- ===== src/RingBuffer/Returning.antt =====
-- src/utils/ring_buffer.rs: a thread that nobody disturbs returns from every call.
use atomics_for_peace_and_sy.Base.{
  ℕ, zero, suc, leb, Option, none, some, get_or, ◌≡◌, refl, inl, inr, Bool, true, false, arith,
  ◌==◌, Bool-cases, if◌then◌else◌, replicate,
}
use atomics_for_peace_and_sy.Threads.{alone}
use atomics_for_peace_and_sy.RingBuffer.{
  RingBuffer, Pc, outside, push_tail, push_head, push_exchange, push_write, pop_tail, pop_head,
  pop_read, pop_exchange, client, step, Outcome, proceed, pushed, rejected, popped, sub_usize,
  nothing, undefined, read_slot, slot_of, masked,
}

-- The thread is in a call.
abbrev pub in_call : {T : Type 0} → Pc T → Bool
in_call (outside last) = false
in_call p = true

==-refl : (n : ℕ) → (n == n) ≡ true
==-refl n = ground arith

module _ {T : Type 0} (size i : ℕ) where
  -- The thread has returned after `k` steps that nobody disturbs.
  abbrev pub Returns : ℕ → RingBuffer T → Pc T → Type 0
  Returns k m p = in_call (alone (step size) i (m, p) (replicate k proceed)).1 ≡ false

  outside-Returns : (k : ℕ) (m : RingBuffer T) (o : Outcome T) → Returns k m (outside o)
  unfolding alone step client
  outside-Returns zero m o = refl
  outside-Returns (suc k) m o = outside-Returns k m o

  module _ (k : ℕ) (m : RingBuffer T) where
    exchange_fresh : (try : Bool) (v : T) → Returns (suc (suc k)) m (push_exchange try v m.head)
    unfolding alone step
    exchange_fresh try v = rw (==-refl m.head) (outside-Returns k _ pushed)

    head-Returns :
        (try : Bool) (v : T) (tail : ℕ) → Returns (suc (suc (suc k))) m (push_head try v tail)
    unfolding alone step
    head-Returns try v tail = elim (Bool-cases (leb size (sub_usize m.head tail))) [
      | inl full ↦ rw full (outside-Returns (suc (suc k)) m (rejected v))
      | inr room ↦ rw room (exchange_fresh try v)
    ]

    exchange-Returns :
        (try : Bool) (v : T) (head : ℕ)
        → Returns (suc (suc (suc (suc (suc k))))) m (push_exchange try v head)
    unfolding alone step
    exchange-Returns try v head = elim (Bool-cases (m.head == head)) [
      | inl won ↦ rw won (outside-Returns (suc (suc (suc k))) _ pushed)
      | inr lost ↦ rw lost (retried try)
    ]
      where
        retried :
            (try : Bool)
            → Returns
                (suc (suc (suc (suc k))))
                m
                (if try then outside (rejected v) else push_tail false v)
        retried true = outside-Returns (suc (suc (suc (suc k)))) m (rejected v)
        retried false = head-Returns false v m.tail

    pop_fresh : (try : Bool) (v : T) → Returns (suc k) m (pop_exchange try m.tail v)
    unfolding alone step
    pop_fresh try v = rw (==-refl m.tail) (outside-Returns k _ (popped v))

    read-Returns : (try : Bool) → Returns (suc (suc k)) m (pop_read try m.tail)
    unfolding alone step
    read-Returns try =
        found (get_or m.buffer (if try then slot_of size m.tail else masked size m.tail) none)
      where
        found : (slot : Option T) → Returns (suc k) m (read_slot size try m.tail slot)
        found none = outside-Returns (suc k) m undefined
        found (some v) = pop_fresh try v

    pop_head-Returns : (try : Bool) → Returns (suc (suc (suc k))) m (pop_head try m.tail)
    unfolding alone step
    pop_head-Returns try = elim (Bool-cases (m.head == m.tail)) [
      | inl empty ↦ rw empty (outside-Returns (suc (suc k)) m nothing)
      | inr filled ↦ rw filled (read-Returns try)
    ]

    pop_exchange-Returns :
        (try : Bool) (tail : ℕ) (v : T)
        → Returns (suc (suc (suc (suc k)))) m (pop_exchange try tail v)
    unfolding alone step
    pop_exchange-Returns try tail v = elim (Bool-cases (m.tail == tail)) [
      | inl won ↦ rw won (outside-Returns (suc (suc (suc k))) _ (popped v))
      | inr lost ↦ rw lost (retried try)
    ]
      where
        retried :
            (try : Bool)
            → Returns (suc (suc (suc k))) m (if try then outside nothing else pop_head false m.tail)
        retried true = outside-Returns (suc (suc (suc k))) m nothing
        retried false = pop_head-Returns false

    pop_read-Returns :
        (try : Bool) (tail : ℕ) → Returns (suc (suc (suc (suc (suc k))))) m (pop_read try tail)
    unfolding alone step
    pop_read-Returns try tail =
        found (get_or m.buffer (if try then slot_of size tail else masked size tail) none)
      where
        found :
            (slot : Option T) → Returns (suc (suc (suc (suc k)))) m (read_slot size try tail slot)
        found none = outside-Returns (suc (suc (suc (suc k)))) m undefined
        found (some v) = pop_exchange-Returns try tail v

  -- A thread that nobody disturbs, and whose exchanges do not fail spuriously, has returned after six
  -- steps from any place of `push`, `pop`, `try_push` and `try_pop`, whatever the ring holds.
  pub finishes_alone : (m : RingBuffer T) (p : Pc T) → Returns 6 m p
  unfolding alone step
  finishes_alone m (outside last) = outside-Returns 6 m last
  finishes_alone m (push_tail try v) = head-Returns 2 m try v m.tail
  finishes_alone m (push_head try v tail) = head-Returns 3 m try v tail
  finishes_alone m (push_exchange try v head) = exchange-Returns 1 m try v head
  finishes_alone m (push_write v head) =
      outside-Returns 5 (step size i proceed m (push_write v head)).0 pushed
  finishes_alone m (pop_tail try) = pop_head-Returns 2 m try
  finishes_alone m (pop_head try tail) = elim (Bool-cases (m.head == tail)) [
    | inl empty ↦ rw empty (outside-Returns 5 m nothing)
    | inr filled ↦ rw filled (pop_read-Returns 0 m try tail)
  ]
  finishes_alone m (pop_read try tail) = pop_read-Returns 1 m try tail
  finishes_alone m (pop_exchange try tail v) = pop_exchange-Returns 2 m try tail v
