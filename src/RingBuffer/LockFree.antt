-- ===== src/RingBuffer/LockFree.antt =====
-- src/utils/ring_buffer.rs: the loops of `push` and `pop` go round again only if another thread's
-- call has got through.
use atomics_for_peace_and_sy.Base.{
  ℕ, suc, ◌-◌, ==_iff, ◌+◌, ◌*◌, ◌≤◌, ◌<◌, ◌≡◌, subst, inl, inr, Bool, true, false, not, ◌&&◌, List,
  [], ◌∷◌, arith, ◌==◌, Bool-cases, length, if◌then◌else◌, ltb,
}
use atomics_for_peace_and_sy.Threads.{System, exec, run, all_along, &&-true}
use atomics_for_peace_and_sy.RingBuffer.{
  RingBuffer, usize_mod, Pc, outside, push_tail, push_head, push_exchange, push_write, pop_tail,
  pop_head, pop_read, pop_exchange, Choice, client, step, weak_fails,
}

add_zero : (n : ℕ) → n + 0 ≡ n
add_zero n = omega arith

add_assoc : (a b c : ℕ) → a + b + c ≡ a + (b + c)
add_assoc a b c = omega arith

-- The thread is in a call that has not got its index yet.
abbrev pub looping : {T : Type 0} → Pc T → Bool
looping (outside last) = false
looping (push_write v head) = false
looping p = true

-- The thread has just called `push`, `pop`, `try_push` or `try_pop`.
abbrev pub starting : {T : Type 0} → Pc T → Bool
starting (push_tail try v) = true
starting (pop_tail try) = true
starting p = false

-- how often thread `i` moves
abbrev pub steps_of : {C : Type 0} → ℕ → List (ℕ × C) → ℕ
steps_of i [] = 0
steps_of i ((j, c) ∷ es) = (if j == i then 1 else 0) + steps_of i es

module _ {T : Type 0} (size i h0 t0 : ℕ) where
  -- what `k` steps of thread `i` since the indices were `h0` and `t0` have cost
  abbrev Paid : ℕ → RingBuffer T → Pc T → Type 0
  Paid k m (push_tail try v) = k ≤ 3 * (m.head - h0)
  Paid k m (push_head try v tail) = k ≤ 3 * (m.head - h0) + 1
  Paid k m (push_exchange try v head) = (h0 ≤ head) × (head ≤ m.head) × (k ≤ 3 * (head - h0) + 2)
  Paid k m (pop_tail try) = k ≤ 3 * (m.tail - t0)
  Paid k m (pop_head try tail) = (t0 ≤ tail) × (tail ≤ m.tail) × (k ≤ 3 * (tail - t0) + 1)
  Paid k m (pop_read try tail) = (t0 ≤ tail) × (tail ≤ m.tail) × (k ≤ 3 * (tail - t0) + 2)
  Paid k m (pop_exchange try tail v) = (t0 ≤ tail) × (tail ≤ m.tail) × (k ≤ 3 * (tail - t0) + 3)
  Paid k m p = k ≤ 3 * (m.head - h0) + 3 * (m.tail - t0) + 4

  abbrev Monotone : RingBuffer T → RingBuffer T → Type 0
  Monotone m m' =
      (m.head ≤ m'.head) × (m'.head ≤ m.head + 1) × (m.tail ≤ m'.tail) × (m'.tail ≤ m.tail + 1)

  step-Monotone :
      (m : RingBuffer T) (j : ℕ) (c : Choice T) (p : Pc T)
      → m.head + 1 < usize_mod
      → m.tail + 1 < usize_mod
      → Monotone m (step size j c m p).0
  unfolding step client
  step-Monotone m j c (outside last) fh ft = ground arith
  step-Monotone m j c p fh ft = ground arith

  other-Paid : (k : ℕ) (m m' : RingBuffer T) (p : Pc T) → Monotone m m' → Paid k m p → Paid k m' p
  other-Paid k m m' p le h = ground arith

  own-Paid :
      (k : ℕ) (m : RingBuffer T) (j : ℕ) (c : Choice T) (p : Pc T)
      → m.head + 1 < usize_mod
      → m.tail + 1 < usize_mod
      → h0 ≤ m.head
      → t0 ≤ m.tail
      → looping p ≡ true
      → weak_fails c ≡ false
      → Paid k m p
      → let x = step size j c m p in Paid (k + 1) x.0 x.1
  unfolding step client
  own-Paid k m j c p fh ft ho to in_loop real h = ground arith

-- Thread `i` is in its loop, and its exchanges do not fail spuriously.
abbrev pub loops : {T : Type 0} → ℕ → System (RingBuffer T) (Pc T) → ℕ → Choice T → Bool
loops i s j c = looping (s.pc i) && not (j == i && weak_fails c)

module _ {T : Type 0} (size n i : ℕ) (lt : i < n) (h0 t0 : ℕ) where
  record Run (k left : ℕ) (s : System (RingBuffer T) (Pc T)) : Type 0 where
    paid : Paid size i h0 t0 k s.mem (s.pc i)
    head_fits : s.mem.head + left < usize_mod
    tail_fits : s.mem.tail + left < usize_mod
    head_later : h0 ≤ s.mem.head
    tail_later : t0 ≤ s.mem.tail

  exec-Run :
      (k left : ℕ) (s : System (RingBuffer T) (Pc T)) (j : ℕ) (c : Choice T)
      → loops i s j c ≡ true
      → Run k (suc left) s
      → Run (k + (if j == i then 1 else 0)) left (exec (step size) n s j c)
  exec-Run k left s j c ok h = record {
    paid = elim (Bool-cases (j == i)) [
      | inl own ↦
          rw (own, (==_iff j i).0 own)
            (own-Paid size i h0 t0 k s.mem i c (s.pc i) (omega (arith, h.head_fits))
              (omega (arith, h.tail_fits)) h.head_later h.tail_later (ground arith) (ground arith)
              h.paid)
      | inr other ↦
          rw (other, add_zero k)
            (other-Paid size i h0 t0 k s.mem (step size j c s.mem (s.pc j)).0 (s.pc i) le h.paid)
    ];
    head_fits = omega (arith, le, h.head_fits);
    tail_fits = omega (arith, le, h.tail_fits);
    head_later = omega (arith, le, h.head_later);
    tail_later = omega (arith, le, h.tail_later);
  }
    where
      le : Monotone size i h0 t0 s.mem (step size j c s.mem (s.pc j)).0
      le =
          step-Monotone size i h0 t0 s.mem j c (s.pc j) (omega (arith, h.head_fits))
            (omega (arith, h.tail_fits))

  event-Run :
      (k left : ℕ) (s : System (RingBuffer T) (Pc T)) (j : ℕ) (c : Choice T)
      → loops i s j c ≡ true
      → Run k (suc left) s
      → Run (k + (if j == i then 1 else 0)) left (if ltb j n then exec (step size) n s j c else s)
  event-Run k left s j c ok h = elim (Bool-cases (ltb j n)) [
    | inl t ↦ rw t (exec-Run k left s j c ok h)
    | inr f ↦
        rw (f, elsewhere, add_zero k)
          (record {
            paid = h.paid;
            head_fits = omega (arith, h.head_fits);
            tail_fits = omega (arith, h.tail_fits);
            head_later = h.head_later;
            tail_later = h.tail_later;
          })
  ]
    where
      elsewhere : ltb j n ≡ false → (j == i) ≡ false
      elsewhere f = ground arith

  run-Run :
      (k : ℕ) (s : System (RingBuffer T) (Pc T)) (es : List (ℕ × Choice T))
      → all_along (step size) n (loops i) s es ≡ true
      → Run k (length es) s
      → Run (k + steps_of i es) 0 (run (step size) n s es)
  unfolding run all_along
  run-Run k s [] ok h = rw (add_zero k) h
  run-Run k s ((j, c) ∷ es) ok h =
      subst (λ k'. Run k' 0 (run (step size) n s' es))
        (add_assoc k (if j == i then 1 else 0) (steps_of i es))
        (run-Run (k + (if j == i then 1 else 0)) s' es (&&-true ok).1
          (event-Run k (length es) s j c (&&-true ok).0 h))
    where
      s' : System (RingBuffer T) (Pc T)
      s' = if ltb j n then exec (step size) n s j c else s

  Paid-bound :
      (k : ℕ) (m : RingBuffer T) (p : Pc T)
      → Paid size i h0 t0 k m p
      → k ≤ 3 * (m.head - h0) + 3 * (m.tail - t0) + 4
  Paid-bound k m p h = ground arith

-- `push`, `pop`, `try_push` and `try_pop` are lock-free: in any schedule along which thread `i` is in
-- a call and has not got its index yet, and its exchanges do not fail spuriously, it makes at most four
-- steps, and three more for each index by which `head` or `tail` has moved on since the call began. So
-- it goes round again only because another thread has won an index. The other threads start anywhere,
-- and the indices are not about to wrap.
pub lock_free :
    {T : Type 0} (size n i : ℕ) (s : System (RingBuffer T) (Pc T)) (es : List (ℕ × Choice T))
    → i < n
    → starting (s.pc i) ≡ true
    → s.mem.head + length es < usize_mod
    → s.mem.tail + length es < usize_mod
    → all_along (step size) n (loops i) s es ≡ true
    → let s' = run (step size) n s es in
      steps_of i es ≤ 3 * (s'.mem.head - s.mem.head) + 3 * (s'.mem.tail - s.mem.tail) + 4
lock_free {T} size n i s es lt begins fh ft ok = omega (
  arith,
  Paid-bound size n i lt s.mem.head s.mem.tail (0 + steps_of i es) s'.mem (s'.pc i)
      (run-Run size n i lt s.mem.head s.mem.tail 0 s es ok begun).paid,
)
  where
    s' : System (RingBuffer T) (Pc T)
    s' = run (step size) n s es

    begun : Run size n i lt s.mem.head s.mem.tail 0 (length es) s
    begun = record {
      paid = ground arith;
      head_fits = fh;
      tail_fits = ft;
      head_later = omega arith;
      tail_later = omega arith;
    }
