-- ===== src/Grid/Store/Tests.antt =====
-- The store at concrete turns.
use mizumi.Prelude.{ℕ, suc, ◌<◌, ◌≡◌, refl, ◌⊎◌, false, List, [], ◌∷◌, ◌==◌}
use mizumi.Grid.Store.{
  Actions, set_state, batch, done, and_then, Event, turn, microtask, create, mark_pending, notify,
  run_microtask, run, run_all, handle, handle_all,
}
use mizumi.Grid.Store.Laws.{handle_all-create, run-batch}

abbrev zeros : ℕ → ℕ
zeros key = 0

abbrev body : Actions ℕ ℕ
body = and_then (set_state 1 5) (and_then (batch (and_then (set_state 2 6) done)) done)

abbrev events : List (Event ℕ ℕ)
events =
    turn (and_then (set_state 0 7) (and_then (batch body) done))
    ∷ microtask
    ∷ turn (and_then (set_state 0 7) done)
    ∷ []

notified : (handle_all ◌==◌ ◌==◌ events (create zeros)).notifications ≡ 2
unfolding handle_all handle run_all create run_microtask notify mark_pending
notified = refl

handle_all-create_example :
    let s = handle_all ◌==◌ ◌==◌ events (create zeros) in
    (s.is_batching ≡ false) × ((s.seen ≡ s.state) ⊎ (0 < s.microtasks))
handle_all-create_example = handle_all-create ◌==◌ ◌==◌ zeros events

run-batch_example :
    let t = run ◌==◌ ◌==◌ (batch body) (create zeros) in
    ((t.notifications ≡ suc (create zeros).notifications) × (t.seen ≡ t.state))
    ⊎ ((t.notifications ≡ (create zeros).notifications) × (t.state ≡ (create zeros).state))
unfolding create
run-batch_example = run-batch ◌==◌ ◌==◌ body (create zeros) refl
