-- ===== src/Arc/Fresh.antt =====
-- src/arc.rs: the allocation that `Arc::new` makes, used by several threads.
use atomics_for_peace_and_sy.Base.{ℕ, zero, suc, ◌≡◌, refl, false, List, arith, ◌==◌, if◌then◌else◌}
use atomics_for_peace_and_sy.Threads.{System, sum_over, run, sum_over-eq-zero}
use atomics_for_peace_and_sy.Arc.{World, new, Outcome, no_call, outside, Thread, Choice, step}
use atomics_for_peace_and_sy.Arc.Inv.{strongs, weaks_of, lockers, finishing, takers, freers, Inv}

abbrev pub fresh_world : {T : Type 0} → T → World T
fresh_world d = record {
  inner = new d;
  dropped = 0;
  freed = 0;
  aborted = false;
  posted_arcs = 0;
  posted_weaks = 0;
}

-- thread 0 has the Arc that `Arc::new` returned
abbrev pub fresh_thread : {T : Type 0} → ℕ → Thread T
fresh_thread i = record { arcs = if i == 0 then 1 else 0; weaks = 0; at = outside no_call }

-- The thread has no handle and is in no call.
abbrev pub Idle : {T : Type 0} → Thread T → Type 0
Idle {T} t = (t.arcs ≡ 0) × (t.weaks ≡ 0) × ((last : Outcome T) × (t.at ≡ outside last))

-- The allocation in use by `n` threads, from its creation on.
unfoldable pub execute : {T : Type 0} → ℕ → T → List (ℕ × Choice T) → System (World T) (Thread T)
execute n d es = run step n (record { mem = fresh_world d; pc = fresh_thread }) es

pub one_strong : (T : Type 0) (n : ℕ) → sum_over strongs (suc n) (fresh_thread {T = T}) ≡ 1
unfolding sum_over
one_strong T zero = refl
one_strong T (suc n) = grind (arith, one_strong T n)

pub init-Inv : {T : Type 0} (n : ℕ) (d : T) → Inv (suc n) (fresh_world d) fresh_thread
init-Inv {T} n d = record {
  live = λ z. ground (
    arith,
    one_strong T n,
    sum_over-eq-zero weaks_of (suc n) (fresh_thread {T = T}) (λ i lt. refl),
    sum_over-eq-zero lockers (suc n) (fresh_thread {T = T}) (λ i lt. refl),
    sum_over-eq-zero finishing (suc n) (fresh_thread {T = T}) (λ i lt. refl),
    sum_over-eq-zero takers (suc n) (fresh_thread {T = T}) (λ i lt. refl),
    sum_over-eq-zero freers (suc n) (fresh_thread {T = T}) (λ i lt. refl),
  );
  gone = λ z. absurd (omega arith);
  each = λ i lt. tt;
}
