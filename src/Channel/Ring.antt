-- ===== src/Channel/Ring.antt =====
-- src/channel.rs over src/utils/ring_buffer.rs: the ring inside a channel. Every run of the channel
-- is, for the ring, a run of the ring.
use atomics_for_peace_and_sy.Base.{
  Bool-cases, ℕ, suc, ◌+◌, ◌≤◌, ◌<◌, ◌≡◌, refl, ◌⊎◌, inl, inr, sym, Bool, true, false, some, List,
  arith, ◌==◌, length, subst, ==_iff,
}
use atomics_for_peace_and_sy.Threads.{System, update}
use atomics_for_peace_and_sy.Futex.{AtomicWait, exec, run-counts, deliver-keeps}
use atomics_for_peace_and_sy.RingBuffer.{RingBuffer, Pc as RingPc, step as ring_step, usize_mod}
use atomics_for_peace_and_sy.RingBuffer.Indices.{Inv, move-Inv}
use atomics_for_peace_and_sy.Channel.{
  Channel, World, new, Pc, outside, send_push, recv_pop, Thread, Choice, Next, client, step,
  step_at, asleep, woken, program, ring_choice,
}
use atomics_for_peace_and_sy.Channel.Inv.{wake-ne_all}
use atomics_for_peace_and_sy.Channel.Handles.{execute}
use atomics_for_peace_and_sy.Channel.Calm.{
  inner, Calm, Calm-Inv, skip-Inv, pushed_Calm, popped_Calm,
}

-- The ring's invariant, of the channel's ring and of where its threads stand in the ring's code.
abbrev pub Inside : {T : Type 0} → (size n left : ℕ) → World T → (ℕ → Thread T) → Type 0
Inside size n left w pc = Inv size n left w.channel.ring (λ i. inner (pc i))

woken_Calm :
    {T : Type 0} (a : ℕ) (t : Thread T) (p : Pc T)
    → t.at ≡ p
    → asleep a t ≡ true
    → Calm (inner (woken t))
woken_Calm a t (outside o) e slept = ground arith
woken_Calm a t p e slept = ground arith

abbrev in_ring : {T : Type 0} → Pc T → Bool
in_ring (send_push try p) = true
in_ring (recv_pop popping p) = true
in_ring p = false

module _ {T : Type 0} (futex : AtomicWait) (size : ℕ) (w : World T) (pc : ℕ → Thread T) (i : ℕ)
    (c : Choice T) where
  abbrev after : Pc T → Next T
  after p = step_at futex size i c w (pc i) p

  client_still :
      (t : Thread T)
      → ((client c w t).0.channel ≡ w.channel)
        × ((inner (client c w t).1 ≡ inner t) ⊎ Calm (inner (client c w t).1))
  unfolding client
  client_still t = ground arith

  -- A step outside the ring does not touch it.
  still :
      (p : Pc T)
      → (pc i).at ≡ p
      → in_ring p ≡ false
      → ((after p).0.channel.ring ≡ w.channel.ring)
        × ((inner (after p).1 ≡ inner (pc i)) ⊎ Calm (inner (after p).1))
  unfolding step_at
  still (outside last) e out = ground (arith, client_still (pc i))
  still p e out = ground arith

  module _ {n left : ℕ} (inv : Inside size n (suc left) w pc) (lt : i < n) where
    -- the ring's own step from `q`
    abbrev ring_next : RingPc T → RingBuffer T × RingPc T
    ring_next q = ring_step size i (ring_choice c) w.channel.ring q

    ring_moved :
        (q : RingPc T) (t : Thread T)
        → inner (pc i) ≡ q
        → (inner t ≡ (ring_next q).1) ⊎ Calm (inner t)
        → Inv size n left (ring_next q).0 (λ j. inner (update pc i t j))
    ring_moved q t e same =
        Calm-Inv (λ j. inner (update pc i t j)) (move-Inv inv i lt (ring_choice c) q e)
          (λ j. elim (Bool-cases (i == j)) [
            | inl here ↦ rw here same
            | inr other ↦ rw other (inl refl)
          ])

    quiet_moved :
        (w' : World T) (t : Thread T)
        → w'.channel.ring ≡ w.channel.ring
        → (inner t ≡ inner (pc i)) ⊎ Calm (inner t)
        → Inside size n left w' (update pc i t)
    quiet_moved w' t e same =
        subst (λ m. Inv size n left m (λ j. inner (update pc i t j))) (sym e)
          (Calm-Inv (λ j. inner (update pc i t j)) (skip-Inv inv)
            (λ j. elim (Bool-cases (i == j)) [
              | inl here ↦ rw here (
                  subst (λ k. (inner t ≡ inner (pc k)) ⊎ Calm (inner t)) ((==_iff i j).0 here) same)
              | inr other ↦ rw other (inl refl)
            ]))

    pub move-Inside :
        (p : Pc T) → (pc i).at ≡ p → Inside size n left (after p).0 (update pc i (after p).1)
    unfolding step_at
    move-Inside (send_push try q) e =
        ring_moved q (after (send_push try q)).1 (ground arith)
          (pushed_Calm try (ring_next q).1 (pc i))
    move-Inside (recv_pop popping q) e =
        ring_moved q (after (recv_pop popping q)).1 (ground arith)
          (popped_Calm popping (ring_next q).1 (pc i))
    move-Inside p e =
        let (ring, same) = still p e refl in quiet_moved (after p).0 (after p).1 ring same

module _ {T : Type 0} (futex : AtomicWait) (size : ℕ) {n left : ℕ} where
  wake-Inside :
      (w : World T) (pc : ℕ → Thread T) (a j : ℕ)
      → asleep a (pc j) ≡ true
      → Inside size n left w pc
      → Inside size n left w (update pc j (woken (pc j)))
  wake-Inside w pc a j slept inv =
      Calm-Inv (λ k. inner (update pc j (woken (pc j)) k)) inv
        (λ k. elim (Bool-cases (j == k)) [
          | inl here ↦ rw here (inr (woken_Calm a (pc j) (pc j).at refl slept))
          | inr other ↦ rw other (inl refl)
        ])

  pub step-Inside :
      (s : System (World T) (Thread T)) (i : ℕ) (c : Choice T) (k : ℕ)
      → i < n
      → Inside size n (suc left) s.mem s.pc
      → let t = exec futex (program futex size) n s i c k in Inside size n left t.mem t.pc
  unfolding step
  step-Inside s i c k lt inv =
      deliver-keeps futex (program futex size) n (Inside size n left m') pc' k next.2
        (λ quiet. moved) (λ a call nobody. moved)
        (λ a j call lj slept. wake-Inside m' pc' a j slept moved)
        (λ a call. absurd (wake-ne_all futex size i c s.mem (s.pc i) (s.pc i).at a call))
    where
      next : Next T
      next = step_at futex size i c s.mem (s.pc i) (s.pc i).at

      m' : World T
      m' = next.0

      pc' : ℕ → Thread T
      pc' = update s.pc i next.1

      moved : Inside size n left m' pc'
      moved = move-Inside futex size s.mem s.pc i c inv lt (s.pc i).at refl

new_ring_indices :
    {T : Type 0} (size : ℕ) (m : Channel T)
    → new size ≡ some m
    → (m.ring.head ≡ 0) × (m.ring.tail ≡ 0)
new_ring_indices size m made = ground arith

module _ {T : Type 0} (futex : AtomicWait) (size n : ℕ) (m : Channel T)
    (es : List (ℕ × Choice T × ℕ)) where
  -- the state that the schedule reaches
  abbrev channel_reached : System (World T) (Thread T)
  channel_reached = execute futex size n m es

  reached-Inside :
      new size ≡ some m
      → length es < usize_mod
      → Inside size n 0 channel_reached.mem channel_reached.pc
  unfolding execute
  reached-Inside made few =
      run-counts futex (program futex size) n (λ left s. Inside size n left s.mem s.pc)
        (λ left s i c k lt inv. step-Inside futex size s i c k lt inv) (λ left s inv. skip-Inv inv)
        _ es
        (record {
          ordered = omega (arith, new_ring_indices size m made);
          bounded = omega (arith, new_ring_indices size m made);
          fits = omega (arith, new_ring_indices size m made);
          each = λ i lt. tt;
          apart = λ i j li lj ne. tt;
        })

  -- However senders and the receiver interleave, in fewer than 2 ^ 64 steps from the creation of a
  -- channel: its ring never holds more than `size` messages, and its `tail` never passes its `head`.
  pub ring_bounded :
      new size ≡ some m
      → length es < usize_mod
      → let ring = channel_reached.mem.channel.ring in
        (ring.tail ≤ ring.head) × (ring.head ≤ ring.tail + size)
  ring_bounded made few = ((reached-Inside made few).ordered, (reached-Inside made few).bounded)
