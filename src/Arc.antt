-- ===== src/Arc.antt =====
-- src/arc.rs: `Arc` and `Weak`, one atomic access (or one access of the data or of the allocation) at
-- a time.
pub mod Inv
pub mod Moves
pub mod Ends
pub mod Places
pub mod Fresh
pub mod Sharing
pub mod Refines
pub mod Calls
pub mod Suite
mod Tests
use atomics_for_peace_and_sy.Base.{
  ℕ, ◌+◌, ◌-◌, ◌/◌, ◌%◌, ◌^◌, Bool, true, false, ltb, leb, ◌==◌, if◌then◌else◌,
}

-- `ArcInner<T>`
pub record ArcInner (T : Type 0) : Type 0 where
  pub strong_count : ℕ  -- AtomicUsize
  pub ref_count : ℕ  -- AtomicUsize
  pub data_cell : T

-- One allocation, with what became of it: how often the data was dropped or moved out, how often
-- the allocation was freed, whether the process has aborted, and the handles that are on their way
-- from one thread to another.
pub record World (T : Type 0) : Type 0 where
  pub inner : ArcInner T
  pub dropped : ℕ
  pub freed : ℕ
  pub aborted : Bool
  pub posted_arcs : ℕ
  pub posted_weaks : ℕ

abbrev pub usize_mod : ℕ
usize_mod = 2 ^ 64

abbrev pub usize_max : ℕ
usize_max = usize_mod - 1

abbrev pub max_ref_count : ℕ
max_ref_count = usize_max / 2

-- `Arc::new`
abbrev pub new : {T : Type 0} → T → ArcInner T
new d = record { strong_count = 1; ref_count = 1; data_cell = d }

-- What the last call returned.
pub data Outcome (T : Type 0) : Type 0 where
  no_call : Outcome T
  cloned : Outcome T
  downgraded : Outcome T
  upgraded : Outcome T
  returned_none : Outcome T
  unwrapped : T → Outcome T
  dropped_handle : Outcome T
  panicked : Outcome T

-- Where a thread stands.
pub data Pc (T : Type 0) : Type 0 where
  outside : Outcome T → Pc T
  viewed : T → Pc T  -- has read the data through `deref`
  borrowed : Pc T  -- has the `&mut T` of `get_mut`
  clone_add : Pc T
  clone_check : (old : ℕ) → Pc T
  down_load : Pc T
  down_exchange : (weak_count : ℕ) → Pc T
  up_load : Pc T
  up_exchange : (strong_refs : ℕ) → Pc T
  get_lock : Pc T  -- `get_mut`: the exchange of 1 for usize::MAX
  get_check : Pc T  -- the load of `strong_count`
  get_unlock : (unique : Bool) → Pc T
  inner_lock : Pc T  -- `into_inner`: the same
  inner_check : Pc T
  inner_unlock : Pc T
  inner_take : Pc T  -- moves the data out
  inner_free : T → Pc T  -- frees the allocation and forgets the handle
  drop_strong : Outcome T → Pc T  -- `drop` of an Arc, then the call returns this
  drop_data : Outcome T → Pc T
  drop_implicit : Outcome T → Pc T  -- the drop of the Weak that all Arcs share
  drop_weak : Pc T
  free : Outcome T → Pc T

-- A thread: how many handles it has, and where it stands.
pub record Thread (T : Type 0) : Type 0 where
  pub arcs : ℕ
  pub weaks : ℕ
  pub at : Pc T

pub data Choice (T : Type 0) : Type 0 where
  call_clone : Choice T
  call_downgrade : Choice T
  call_upgrade : Choice T
  call_get_mut : Choice T
  call_into_inner : Choice T
  call_drop_arc : Choice T
  call_drop_weak : Choice T
  read : Choice T
  write : T → Choice T
  end_borrow : Choice T
  send_arc : Choice T
  receive_arc : Choice T
  send_weak : Choice T
  receive_weak : Choice T
  proceed : Choice T

abbrev pub Next : Type 0 → Type 0
Next T = World T × Thread T

module _ {T : Type 0} where
  abbrev pub goto : World T → Thread T → Pc T → Next T
  goto m t p = (m, record t { at = p })

  abbrev pub set_strong : World T → ℕ → World T
  set_strong m count = record m { inner = record m.inner { strong_count = count } }

  abbrev pub set_ref : World T → ℕ → World T
  set_ref m count = record m { inner = record m.inner { ref_count = count } }

  -- a call that needs a handle of an Arc, or of a Weak
  abbrev pub with_arc : World T → Thread T → Pc T → Next T
  with_arc m t p = if ltb 0 t.arcs then goto m t p else (m, t)

  abbrev pub with_weak : World T → Thread T → Pc T → Next T
  with_weak m t p = if ltb 0 t.weaks then goto m t p else (m, t)

  -- What a thread may do outside the calls. It uses, drops and sends only handles that it has.
  pub client : Choice T → World T → Thread T → Next T
  client call_clone m t = with_arc m t clone_add
  client call_downgrade m t = with_arc m t down_load
  client call_upgrade m t = with_weak m t up_load
  client call_get_mut m t = with_arc m t get_lock
  client call_into_inner m t = with_arc m t inner_lock
  client call_drop_arc m t = with_arc m t (drop_strong dropped_handle)
  client call_drop_weak m t = with_weak m t drop_weak
  client read m t = with_arc m t (viewed m.inner.data_cell)
  client (write v) m t = (m, t)
  client end_borrow m t = goto m t (outside no_call)
  client send_arc m t =
      if ltb 0 t.arcs
      then (
        record m { posted_arcs = m.posted_arcs + 1 },
        record t { arcs = t.arcs - 1; at = outside no_call },
      )
      else (m, t)
  client receive_arc m t =
      if ltb 0 m.posted_arcs
      then (
        record m { posted_arcs = m.posted_arcs - 1 },
        record t { arcs = t.arcs + 1; at = outside no_call },
      )
      else (m, t)
  client send_weak m t =
      if ltb 0 t.weaks
      then (
        record m { posted_weaks = m.posted_weaks + 1 },
        record t { weaks = t.weaks - 1; at = outside no_call },
      )
      else (m, t)
  client receive_weak m t =
      if ltb 0 m.posted_weaks
      then (
        record m { posted_weaks = m.posted_weaks - 1 },
        record t { weaks = t.weaks + 1; at = outside no_call },
      )
      else (m, t)
  client proceed m t = (m, t)

  -- with the `&mut T`: write the data, or end the borrow
  abbrev pub with_borrow : Choice T → World T → Thread T → Next T
  with_borrow (write v) m t = (record m { inner = record m.inner { data_cell = v } }, t)
  with_borrow end_borrow m t = goto m t (outside no_call)
  with_borrow c m t = (m, t)

  -- the head of the loop in `downgrade`, and in `upgrade`
  abbrev pub down_test : ℕ → Pc T
  down_test weak_count =
      if weak_count == usize_max
      then down_load
      else if leb weak_count max_ref_count
      then down_exchange weak_count
      else outside panicked

  abbrev pub up_test : ℕ → Pc T
  up_test strong_refs =
      if strong_refs == 0
      then outside returned_none
      else if leb strong_refs max_ref_count
      then up_exchange strong_refs
      else outside panicked

  -- the exchange of 1 for usize::MAX that `get_mut` and `into_inner` begin with
  abbrev pub lock_refs : World T → Thread T → (won lost : Pc T) → Next T
  lock_refs m t won lost =
      if m.inner.ref_count == 1 then goto (set_ref m usize_max) t won else goto m t lost

  -- `drop` of a Weak: the decrement, and whether the allocation is to be freed
  abbrev pub release_ref : World T → Thread T → Outcome T → Next T
  release_ref m t last =
      goto (set_ref m ((m.inner.ref_count + usize_max) % usize_mod)) t
        (if m.inner.ref_count == 1 then free last else outside last)

  pub step_at : Choice T → World T → Thread T → Pc T → Next T
  unfolding client
  step_at c m t (outside last) = client c m t
  step_at c m t (viewed v) = client c m t
  step_at c m t borrowed = with_borrow c m t
  step_at c m t clone_add =
      goto (set_strong m ((m.inner.strong_count + 1) % usize_mod)) t
        (clone_check m.inner.strong_count)
  step_at c m t (clone_check old) =
      if leb old max_ref_count
      then (m, record t { arcs = t.arcs + 1; at = outside cloned })
      else (record m { aborted = true }, t)
  step_at c m t down_load = goto m t (down_test m.inner.ref_count)
  step_at c m t (down_exchange weak_count) =
      if m.inner.ref_count == weak_count
      then (set_ref m (weak_count + 1), record t { weaks = t.weaks + 1; at = outside downgraded })
      else goto m t (down_test m.inner.ref_count)
  step_at c m t up_load = goto m t (up_test m.inner.strong_count)
  step_at c m t (up_exchange strong_refs) =
      if m.inner.strong_count == strong_refs
      then (set_strong m (strong_refs + 1), record t { arcs = t.arcs + 1; at = outside upgraded })
      else goto m t (up_test m.inner.strong_count)
  step_at c m t get_lock = lock_refs m t get_check (outside returned_none)
  step_at c m t get_check = goto m t (get_unlock (m.inner.strong_count == 1))
  step_at c m t (get_unlock unique) =
      goto (set_ref m 1) t (if unique then borrowed else outside returned_none)
  step_at c m t inner_lock = lock_refs m t inner_check (drop_strong returned_none)
  step_at c m t inner_check =
      goto m t (if m.inner.strong_count == 1 then inner_take else inner_unlock)
  step_at c m t inner_unlock = goto (set_ref m 1) t (drop_strong returned_none)
  step_at c m t inner_take =
      goto (record m { dropped = m.dropped + 1 }) t (inner_free m.inner.data_cell)
  step_at c m t (inner_free v) =
      (record m { freed = m.freed + 1 }, record t { arcs = t.arcs - 1; at = outside (unwrapped v) })
  step_at c m t (drop_strong last) = (
    set_strong m ((m.inner.strong_count + usize_max) % usize_mod),
    record t {
      arcs = t.arcs - 1;
      at = if m.inner.strong_count == 1 then drop_data last else outside last;
    },
  )
  step_at c m t (drop_data last) =
      goto (record m { dropped = m.dropped + 1 }) t (drop_implicit last)
  step_at c m t (drop_implicit last) = release_ref m t last
  step_at c m t drop_weak = release_ref m (record t { weaks = t.weaks - 1 }) dropped_handle
  step_at c m t (free last) = goto (record m { freed = m.freed + 1 }) t (outside last)

  -- After an abort nothing moves.
  pub step : ℕ → Choice T → World T → Thread T → Next T
  unfolding step_at
  step i c m t = if m.aborted then (m, t) else step_at c m t t.at
