-- ===== src/RingBuffer/Queue.antt =====
-- src/utils/ring_buffer.rs: with no other thread in between, the ring is a bounded queue.
use atomics_for_peace_and_sy.Base.{
  ℕ, suc, ◌+◌, ◌-◌, ◌^◌, ◌≤◌, ◌<◌, ◌≡◌, refl, ◌≢◌, ◌∙◌, sym, Bool, true, false, Option, none, some,
  List, [], ◌∷◌, ◌++◌, map, arith, ltb, if◌then◌else◌, length, get_or, set, length-append,
  length-replicate, length-set, get_or-set_self, get_or-set_ne, Bool-cases, inl, inr,
}
use native.Mathlib.Nat.{mod-lt, div-add-mod, add-zero}
use atomics_for_peace_and_sy.Threads.{alone}
use atomics_for_peace_and_sy.RingBuffer.{
  RingBuffer, usize_mod, new, Outcome, pushed, rejected, popped, nothing, outside, Choice,
  call_push, call_pop, call_try_push, call_try_pop, proceed, client, slot_of, step, drop,
  dropped_from,
}
use atomics_for_peace_and_sy.RingBuffer.Mask.{pow-pos, masked-eq-slot_of}

-- What the ring promises: a queue of at most `size` values.
abbrev pub enqueue : {T : Type 0} → ℕ → List T → T → List T × Outcome T
enqueue size q v = if ltb (length q) size then (q ++ (v ∷ []), pushed) else (q, rejected v)

abbrev pub dequeue : {T : Type 0} → List T → List T × Outcome T
dequeue [] = ([], nothing)
dequeue (x ∷ q) = (q, popped x)

-- The slots from index `idx` on hold the values of `q`, in order.
abbrev pub Slots : {T : Type 0} → List (Option T) → (size idx : ℕ) → List T → Type 0
Slots buffer size idx [] = Unit
Slots buffer size idx (x ∷ q) =
    (get_or buffer (slot_of size idx) none ≡ some x) × Slots buffer size (idx + 1) q

-- The ring holds the queue `q`, and its indices have not wrapped.
pub record Holds {T : Type 0} (size : ℕ) (m : RingBuffer T) (q : List T) : Type 0 where
  pub storage : length m.buffer ≡ size
  pub fits : length q ≤ size
  pub counted : m.head ≡ m.tail + length q
  pub slots : Slots m.buffer size m.tail q

-- Two indices less than `n` apart have different slots.
slot-ne : (a b n : ℕ) → a < b → b < a + n → slot_of n a ≢ slot_of n b
slot-ne a b n lt near e = grind (arith, div-add-mod a n, div-add-mod b n)

one_more : (a b : ℕ) → a + 1 + b ≡ a + suc b
one_more a b = omega arith

module _ {T : Type 0} (size : ℕ) where
  Slots-set :
      (buffer : List (Option T)) (idx j : ℕ) (v : Option T) (q : List T)
      → idx + length q ≤ j
      → j < idx + size
      → Slots buffer size idx q
      → Slots (set buffer (slot_of size j) v) size idx q
  Slots-set buffer idx j v [] above near h = tt
  Slots-set buffer idx j v (x ∷ q) above near h = (
    get_or-set_ne buffer (slot_of size j) (slot_of size idx) v none
          (λ e. slot-ne idx j size (omega arith) near (sym e))
        ∙ h.0,
    Slots-set buffer (idx + 1) j v q (omega arith) (omega arith) h.1,
  )

  Slots-append :
      (buffer : List (Option T)) (idx : ℕ) (v : T) (q : List T)
      → Slots buffer size idx q
      → get_or buffer (slot_of size (idx + length q)) none ≡ some v
      → Slots buffer size idx (q ++ (v ∷ []))
  Slots-append buffer idx v [] h e = (rw add-zero at e, tt)
  Slots-append buffer idx v (x ∷ q) h e =
      (h.0, Slots-append buffer (idx + 1) v q h.1 (rw (one_more idx (length q)) e))

-- one call of a thread that is not disturbed, with the steps that it takes at most
abbrev pub call_steps : {T : Type 0} → Choice T → List (Choice T)
call_steps c = c ∷ proceed ∷ proceed ∷ proceed ∷ proceed ∷ []

abbrev pub push_call : {T : Type 0} → Bool → T → Choice T
push_call try v = if try then call_try_push v else call_push v

abbrev pub pop_call : {T : Type 0} → Bool → Choice T
pop_call try = if try then call_try_pop else call_pop

module _ {T : Type 0} (k : ℕ) where
  module _ {m : RingBuffer T} {q : List T} (h : Holds (2 ^ k) m q) (i : ℕ) (last : Outcome T) where
    open h use {storage, fits, counted, slots}

    push_room :
        (try : Bool) (v : T)
        → length q < (2 ^ k)
        → m.head + 1 < usize_mod
        → alone (step (2 ^ k)) i (m, outside last) (call_steps (push_call try v)) ≡ (
          record m { head = m.head + 1; buffer = set m.buffer (slot_of (2 ^ k) m.head) (some v) },
          outside pushed,
        )
    unfolding alone step client
    push_room true v lt room = ground arith
    push_room false v lt room = ground arith

    push_full :
        (try : Bool) (v : T)
        → length q ≡ (2 ^ k)
        → m.head < usize_mod
        → alone (step (2 ^ k)) i (m, outside last) (call_steps (push_call try v))
          ≡ (m, outside (rejected v))
    unfolding alone step client
    push_full true v full room = ground arith
    push_full false v full room = ground arith

  pop_empty :
      (m : RingBuffer T)
      → Holds (2 ^ k) m []
      → (i : ℕ) (last : Outcome T) (try : Bool)
      → alone (step (2 ^ k)) i (m, outside last) (call_steps (pop_call try)) ≡ (m, outside nothing)
  unfolding alone step client
  pop_empty m h i last true = ground (arith, h)
  pop_empty m h i last false = ground (arith, h)

  pop_first :
      (m : RingBuffer T) (x : T) (q : List T)
      → Holds (2 ^ k) m (x ∷ q)
      → (i : ℕ) (last : Outcome T) (try : Bool) → m.head < usize_mod
      → alone (step (2 ^ k)) i (m, outside last) (call_steps (pop_call try))
        ≡ (record m { tail = m.tail + 1 }, outside (popped x))
  unfolding alone step client
  pop_first m x q h i last true room = ground (arith, h)
  pop_first m x q h i last false room = ground (arith, h, masked-eq-slot_of k m.tail)

  -- The queue after a push, in the ring that has written it.
  pub push_room-Holds :
      (m : RingBuffer T) (q : List T) (v : T)
      → Holds (2 ^ k) m q
      → length q < 2 ^ k
      → Holds
          (2 ^ k)
          (record m { head = m.head + 1; buffer = set m.buffer (slot_of (2 ^ k) m.head) (some v) })
          (q ++ (v ∷ []))
  push_room-Holds m q v h lt = record {
    storage = omega (arith, h.storage, length-set m.buffer (slot_of (2 ^ k) m.head) (some v));
    fits = omega (arith, length-append q (v ∷ []));
    counted = omega (arith, h.counted, length-append q (v ∷ []));
    slots =
        Slots-append (2 ^ k) (set m.buffer (slot_of (2 ^ k) m.head) (some v)) m.tail v q
          (Slots-set (2 ^ k) m.buffer m.tail m.head (some v) q (omega (arith, h.counted))
            (omega (arith, h.counted)) h.slots)
          (rw (← h.counted) (
            get_or-set_self m.buffer (slot_of (2 ^ k) m.head) (some v) none
              (omega (arith, h.storage, mod-lt m.head (pow-pos k)))));
  }

  -- A call of `push` or `try_push` that nothing disturbs, on a ring of 2 ^ k slots that holds `q`,
  -- returns what the bounded queue returns and leaves the ring holding its queue: the value goes to
  -- the end, or comes back if the ring is full. The index `head` must not be about to wrap.
  pub push_refines :
      (m : RingBuffer T) (q : List T) (i : ℕ) (last : Outcome T) (try : Bool) (v : T)
      → Holds (2 ^ k) m q
      → m.head + 1 < usize_mod
      → let (m', p) = alone (step (2 ^ k)) i (m, outside last) (call_steps (push_call try v)) in
        (p ≡ outside (enqueue (2 ^ k) q v).1) × Holds (2 ^ k) m' (enqueue (2 ^ k) q v).0
  push_refines m q i last try v h room = elim (Bool-cases (ltb (length q) (2 ^ k))) [
    | inl lt ↦
        rw (lt, push_room h i last try v (ground arith) room)
          (refl, push_room-Holds m q v h (ground arith))
    | inr full ↦
        rw (full, push_full h i last try v (ground (arith, h.fits)) (omega arith)) (refl, h)
  ]

  -- A call of `pop` or `try_pop` that nothing disturbs returns the first value of the queue and
  -- leaves the ring holding the rest, or returns `None` if the queue is empty.
  pub pop_refines :
      (m : RingBuffer T) (q : List T) (i : ℕ) (last : Outcome T) (try : Bool)
      → Holds (2 ^ k) m q
      → m.head < usize_mod
      → let (m', p) = alone (step (2 ^ k)) i (m, outside last) (call_steps (pop_call try)) in
        (p ≡ outside (dequeue q).1) × Holds (2 ^ k) m' (dequeue q).0
  pop_refines m [] i last try h room = rw (pop_empty m h i last try) (refl, h)
  pop_refines m (x ∷ q) i last try h room = rw (pop_first m x q h i last try room) (
    refl,
    record {
      storage = h.storage;
      fits = omega (arith, h.fits);
      counted = omega (arith, h.counted);
      slots = h.slots.1;
    },
  )

  -- A call moves the index `head` by one at most.
  pub head-push :
      (m : RingBuffer T) (q : List T) (i : ℕ) (last : Outcome T) (try : Bool) (v : T)
      → Holds (2 ^ k) m q
      → m.head + 1 < usize_mod
      → (alone (step (2 ^ k)) i (m, outside last) (call_steps (push_call try v))).0.head
        ≤ m.head + 1
  head-push m q i last try v h room = elim (Bool-cases (ltb (length q) (2 ^ k))) [
    | inl lt ↦ rw (push_room h i last try v (ground arith) room) (omega arith)
    | inr full ↦ rw (push_full h i last try v (ground (arith, h.fits)) (omega arith)) (omega arith)
  ]

  pub head-pop :
      (m : RingBuffer T) (q : List T) (i : ℕ) (last : Outcome T) (try : Bool)
      → Holds (2 ^ k) m q
      → m.head < usize_mod
      → (alone (step (2 ^ k)) i (m, outside last) (call_steps (pop_call try))).0.head ≤ m.head + 1
  head-pop m [] i last try h room = rw (pop_empty m h i last try) (omega arith)
  head-pop m (x ∷ q) i last try h room = rw (pop_first m x q h i last try room) (omega arith)

  -- A new ring holds the empty queue.
  pub new-Holds : (m : RingBuffer T) → new (2 ^ k) ≡ some m → Holds (2 ^ k) m []
  new-Holds m e = ground (arith, length-replicate (2 ^ k) unwritten)
    where
      unwritten : Option T
      unwritten = none

  dropped_from-Slots :
      (buffer : List (Option T)) (idx : ℕ) (q : List T)
      → Slots buffer (2 ^ k) idx q
      → dropped_from (2 ^ k) buffer idx (length q) ≡ map some q
  unfolding dropped_from
  dropped_from-Slots buffer idx [] h = refl
  dropped_from-Slots buffer idx (x ∷ q) h =
      rw (masked-eq-slot_of k idx, h.0, dropped_from-Slots buffer (idx + 1) q h.1)

  -- Dropping the ring drops each value that is still in it, once, in order, and nothing else.
  pub drop-Holds : (m : RingBuffer T) (q : List T) → Holds (2 ^ k) m q → drop (2 ^ k) m ≡ map some q
  unfolding drop
  drop-Holds m q h = rw (left) (dropped_from-Slots m.buffer m.tail q h.slots)
    where
      left : m.head - m.tail ≡ length q
      left = omega (arith, h.counted)
