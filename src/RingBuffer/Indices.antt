-- ===== src/RingBuffer/Indices.antt =====
-- src/utils/ring_buffer.rs: the two indices, however many threads push and pop at the same time.
use atomics_for_peace_and_sy.Base.{
  ℕ, suc, ◌+◌, ◌≤◌, ◌<◌, ◌≡◌, refl, ◌≢◌, inl, inr, true, false, List, arith, ◌==◌, Bool-cases,
  length, none, replicate, subst,
}
use atomics_for_peace_and_sy.Threads.{System, update, run, run-counts}
use atomics_for_peace_and_sy.RingBuffer.{
  RingBuffer, usize_mod, no_call, Pc, outside, push_tail, push_head, push_exchange, push_write,
  pop_tail, pop_head, pop_read, pop_exchange, Choice, client, step,
}

-- What a thread's copies of the indices still tell.
abbrev pub Place : {T : Type 0} → ℕ → RingBuffer T → Pc T → Type 0
Place size m (outside last) = Unit
Place size m (push_tail try v) = Unit
Place size m (push_head try v tail) = tail ≤ m.tail
Place size m (push_exchange try v head) = head < m.tail + size
Place size m (push_write v head) = head < m.head
Place size m (pop_tail try) = Unit
Place size m (pop_head try tail) = tail ≤ m.tail
Place size m (pop_read try tail) = (tail < m.head) × (tail ≤ m.tail)
Place size m (pop_exchange try tail v) = (tail < m.head) × (tail ≤ m.tail)

-- Two producers that are about to write have won different indices.
abbrev pub Apart : {T : Type 0} → Pc T → Pc T → Type 0
Apart (push_write v head) (push_write w other) = head ≢ other
Apart (push_write v head) q = Unit
Apart p q = Unit

-- The indices when at most `left` more steps are made.
pub record Inv {T : Type 0} (size n left : ℕ) (m : RingBuffer T) (pc : ℕ → Pc T) : Type 0 where
  pub ordered : m.tail ≤ m.head
  pub bounded : m.head ≤ m.tail + size
  pub fits : m.head + left < usize_mod
  pub each : (i : ℕ) → i < n → Place size m (pc i)
  pub apart : (i j : ℕ) → i < n → j < n → i ≢ j → Apart (pc i) (pc j)

module _ {T : Type 0} {size n left : ℕ} where
  module _ {m : RingBuffer T} {pc : ℕ → Pc T} (inv : Inv size n (suc left) m pc) (i : ℕ)
      (lt : i < n) (c : Choice T) where
    open inv use {ordered, bounded, fits, each, apart}

    abbrev pub after : Pc T → RingBuffer T × Pc T
    after p = step size i c m p

    move-indices :
        (p : Pc T)
        → pc i ≡ p
        → let m' = (after p).0 in
          (m'.tail ≤ m'.head)
          × (m'.head ≤ m'.tail + size)
          × (m'.head + left < usize_mod)
          × (m.tail ≤ m'.tail)
          × (m.head ≤ m'.head)
    unfolding step client
    move-indices (outside last) e = ground (arith, each i)
    move-indices p e = ground (arith, each i)

    move_self : (p : Pc T) → pc i ≡ p → Place size (after p).0 (after p).1
    unfolding step client
    move_self (outside last) e = ground (arith, each i)
    move_self p e = ground (arith, each i)

    move-other :
        (m' : RingBuffer T)
        → m.tail ≤ m'.tail
        → m.head ≤ m'.head
        → (p : Pc T) → Place size m p
        → Place size m' p
    move-other m' h g (outside last) e = ground arith
    move-other m' h g p e = ground arith

    move-Apart :
        (p q : Pc T)
        → Place size m q
        → (Apart p q → Apart (after p).1 q) × (Apart q p → Apart q (after p).1)
    unfolding step client
    move-Apart (outside last) q h = ground arith
    move-Apart p q h = ground arith

    apart_test : (j k : ℕ) → (i == j) ≡ true → j ≢ k → (i == k) ≡ false
    apart_test j k a ne = ground arith

    pub move-Inv : (p : Pc T) → pc i ≡ p → Inv size n left (after p).0 (update pc i (after p).1)
    move-Inv p e =
        let (le, room, fit, gt, gh) = move-indices p e in
        record {
          ordered = le;
          bounded = room;
          fits = fit;
          each = λ j lj. elim (Bool-cases (i == j)) [
            | inl same ↦ rw same (move_self p e)
            | inr other ↦ rw other (move-other (after p).0 gt gh (pc j) (each j lj))
          ];
          apart = λ j k lj lk ne. elim (Bool-cases (i == j)) [
            | inl a ↦
                rw (a, apart_test j k a ne)
                  ((move-Apart p (pc k) (each k lk)).0
                    (subst (λ x. Apart x (pc k)) e (apart i k lt lk (ground arith))))
            | inr a ↦ elim (Bool-cases (i == k)) [
              | inl b ↦
                  rw (a, b)
                    ((move-Apart p (pc j) (each j lj)).1
                      (subst (λ x. Apart (pc j) x) e (apart j i lj lt (ground arith))))
              | inr b ↦ rw (a, b) (apart j k lj lk ne)
            ]
          ];
        }

module _ {T : Type 0} (size n : ℕ) (es : List (ℕ × Choice T)) where
  -- the state that the schedule reaches from an empty ring
  abbrev pub reached : System (RingBuffer T) (Pc T)
  reached =
      run (step size) n
        (record {
          mem = record { buffer = replicate size none; head = 0; tail = 0 };
          pc = λ _. outside no_call;
        })
        es

  reached-Inv : length es < usize_mod → Inv size n 0 reached.mem reached.pc
  reached-Inv room =
      run-counts (step size) n (λ left s. Inv size n left s.mem s.pc)
        (λ left s i c lt inv. move-Inv inv i lt c (s.pc i) refl)
        (λ left s inv. record {
          ordered = inv.ordered;
          bounded = inv.bounded;
          fits = ground (arith, inv.fits);
          each = inv.each;
          apart = inv.apart;
        })
        _ es
        (record {
          ordered = omega arith;
          bounded = omega arith;
          fits = ground arith;
          each = λ i lt. tt;
          apart = λ i j li lj ne. tt;
        })

  -- However producers and consumers interleave, in fewer than 2 ^ 64 steps from the creation,
  -- `tail` never passes `head`, and at most `size` elements lie between them.
  pub never_over_full :
      length es < usize_mod
      → (reached.mem.tail ≤ reached.mem.head) × (reached.mem.head ≤ reached.mem.tail + size)
  never_over_full room = ((reached-Inv room).ordered, (reached-Inv room).bounded)

  -- However producers and consumers interleave, in fewer than 2 ^ 64 steps from the creation, no
  -- index is won twice: two producers that are about to write their slots have different ones, both
  -- below `head`.
  pub indices_won_once :
      (i j : ℕ) (v w : T) (h g : ℕ)
      → length es < usize_mod
      → i < n
      → j < n
      → i ≢ j
      → reached.pc i ≡ push_write v h
      → reached.pc j ≡ push_write w g
      → (h ≢ g) × (h < reached.mem.head) × (g < reached.mem.head)
  indices_won_once i j v w h g room li lj ne ei ej = (
    subst (λ p. Apart p (push_write w g)) ei
        (subst (λ q. Apart (reached.pc i) q) ej ((reached-Inv room).apart i j li lj ne)),
    ground (arith, (reached-Inv room).each i),
    ground (arith, (reached-Inv room).each j),
  )
