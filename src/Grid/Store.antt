-- ===== src/Grid/Store.antt =====
-- The store of useDataGrid in packages/webui/hooks/use-data-grid.ts: setState, notify and batch.
-- The state is a function from its keys; the values of all keys are in one type. `object_is` stands
-- for Object.is and `same_key` for the equality of keys.
pub mod Laws
pub mod Within
mod Tests
use mizumi.Prelude.{ℕ, zero, suc, ◌+◌, ◌≡◌, Bool, true, false, ◌||◌, List, [], ◌∷◌, if◌then◌else◌}

-- What the code does between two turns of the event loop: setState and batch, in any nesting. A
-- callback that throws is one that ends early.
mutual
  pub data Action (Key Value : Type 0) : Type 0 where
    set_state : Key → Value → Action Key Value
    batch : Actions Key Value → Action Key Value

  pub data Actions (Key Value : Type 0) : Type 0 where
    done : Actions Key Value
    and_then : Action Key Value → Actions Key Value → Actions Key Value

-- What happens in turn: a run of code, or the callback that was queued first.
pub data Event (Key Value : Type 0) : Type 0 where
  turn : Actions Key Value → Event Key Value
  microtask : Event Key Value

-- `microtasks` counts the callbacks that are queued, `notifications` the calls of notify, and
-- `seen` is the state that the listeners read at the last of them.
pub record Store (Key Value : Type 0) : Type 0 where
  pub state : Key → Value
  pub is_batching : Bool
  pub pending_notification : Bool
  pub microtasks : ℕ
  pub notifications : ℕ
  pub seen : Key → Value

module _ {Key Value : Type 0} where
  unfoldable pub create : (Key → Value) → Store Key Value
  create state = record {
    state = state;
    is_batching = false;
    pending_notification = false;
    microtasks = 0;
    notifications = 0;
    seen = state;
  }

  unfoldable pub notify : Store Key Value → Store Key Value
  notify s = record s { seen = s.state; notifications = suc s.notifications }

  -- What setState does after the assignment.
  unfoldable pub mark_pending : Store Key Value → Store Key Value
  mark_pending s =
      if s.is_batching
      then record s { pending_notification = true }
      else if s.pending_notification
      then s
      else record s { pending_notification = true; microtasks = suc s.microtasks }

  unfoldable pub begin_batch : Store Key Value → Store Key Value
  begin_batch s = record s { is_batching = true; pending_notification = false }

  -- The `finally` of batch.
  unfoldable pub end_batch : Bool → Store Key Value → Store Key Value
  unfolding notify
  end_batch was_pending s =
      if s.pending_notification || was_pending
      then notify (record s { is_batching = false; pending_notification = false })
      else record s { is_batching = false }

  -- The event loop runs the oldest callback that setState queued.
  unfoldable pub run_microtask : Store Key Value → Store Key Value
  unfolding notify
  run_microtask s = elim s.microtasks [
    | zero ↦ s
    | suc n ↦ notify (record s { pending_notification = false; microtasks = n })
  ]

  module _ (same_key : Key → Key → Bool) (object_is : Value → Value → Bool) where
    unfoldable pub assign : Key → Value → (Key → Value) → Key → Value
    assign key value state k = if same_key key k then value else state k

    unfoldable pub set_value : Key → Value → Store Key Value → Store Key Value
    unfolding mark_pending assign
    set_value key value s =
        if object_is (s.state key) value
        then s
        else mark_pending (record s { state = assign key value s.state })

    unfoldable mutual
      unfolding set_value begin_batch end_batch

      pub run : Action Key Value → Store Key Value → Store Key Value
      run (set_state key value) s = set_value key value s
      run (batch body) s =
          let inner = run_all body s in
          let outer = end_batch s.pending_notification (run_all body (begin_batch s)) in
          if s.is_batching then inner else outer

      pub run_all : Actions Key Value → Store Key Value → Store Key Value
      run_all done s = s
      run_all (and_then a rest) s = run_all rest (run a s)

    unfoldable pub handle : Event Key Value → Store Key Value → Store Key Value
    unfolding run_microtask
    handle (turn body) s = run_all body s
    handle microtask s = run_microtask s

    unfoldable pub handle_all : List (Event Key Value) → Store Key Value → Store Key Value
    unfolding handle
    handle_all [] s = s
    handle_all (e ∷ es) s = handle_all es (handle e s)
