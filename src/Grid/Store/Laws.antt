-- ===== src/Grid/Store/Laws.antt =====
-- The store of useDataGrid: no change of the state goes unnoticed.
use mizumi.Prelude.{
  zero, suc, ◌<◌, ◌≡◌, refl, sym, ap, subst, ◌∙◌, ◌⊎◌, inl, inr, Bool, true, false, ◌||◌, List, [],
  ◌∷◌, arith, Bool-cases,
}
use mizumi.Grid.Store.{
  Action, set_state, batch, Actions, done, and_then, Store, create, notify, mark_pending,
  begin_batch, end_batch, run_microtask, set_value, run, run_all, Event, turn, microtask, handle,
  handle_all,
}
use mizumi.Grid.Store.Within.{IsWithin, run-batch_outer, run_all-IsWithin}

not_true_of_or_false : (a b : Bool) → (a || b) ≡ false → ¬ (a ≡ true)
not_true_of_or_false a b e d = ground arith

module _ {Key Value : Type 0} where
  -- Outside a batch: the listeners have seen the state, or a callback that notifies them is queued.
  pub record IsSettled (s : Store Key Value) : Type 0 where
    idle : s.is_batching ≡ false
    queued : s.pending_notification ≡ true → 0 < s.microtasks
    shown : (s.seen ≡ s.state) ⊎ (0 < s.microtasks)

  module _ (same_key : Key → Key → Bool) (object_is : Value → Value → Bool) where
    set_value-IsSettled :
        (key : Key) (value : Value) (s : Store Key Value)
        → IsSettled s
        → IsSettled (set_value same_key object_is key value s)
    unfolding set_value mark_pending
    set_value-IsSettled key value s h = elim (Bool-cases (object_is (s.state key) value)) [
      | inl e ↦ rw e h
      | inr e ↦ elim (Bool-cases s.pending_notification) [
        | inl p ↦
            rw (e, h.idle, p)
              (record { idle = refl; queued = (λ _. h.queued p); shown = inr (h.queued p) })
        | inr p ↦
            rw (e, h.idle, p)
              (record { idle = refl; queued = (λ _. omega arith); shown = inr (omega arith) })
      ]
    ]

    end_batch-IsSettled :
        (s t : Store Key Value)
        → IsSettled s
        → IsWithin (begin_batch s) t
        → IsSettled (end_batch s.pending_notification t)
    unfolding end_batch begin_batch notify
    end_batch-IsSettled s t h v =
        elim (Bool-cases (t.pending_notification || s.pending_notification)) [
          | inl e ↦ rw e (record { idle = refl; queued = (λ e. cc); shown = inl refl })
          | inr e ↦ rw e (record {
            idle = refl;
            queued = (λ d. elim (not_true_of_or_false _ _ e d) [ ]);
            shown = elim v.changed [
              | inl d ↦ elim (not_true_of_or_false _ _ e d) [ ]
              | inr d ↦ elim h.shown [
                | inl f ↦ inl (v.seen ∙ f ∙ sym d.0)
                | inr f ↦ inr (subst (λ n. 0 < n) (sym v.microtasks) f)
              ]
            ];
          })
        ]

    mutual
      unfolding run run_all begin_batch

      run-IsSettled :
          (a : Action Key Value) (s : Store Key Value)
          → IsSettled s
          → IsSettled (run same_key object_is a s)
      run-IsSettled (set_state key value) s h = set_value-IsSettled key value s h
      run-IsSettled (batch body) s h =
          subst IsSettled (sym (run-batch_outer same_key object_is body s h.idle)) (
            end_batch-IsSettled s _ h
              (run_all-IsWithin same_key object_is body (begin_batch s) refl))

      run_all-IsSettled :
          (body : Actions Key Value) (s : Store Key Value)
          → IsSettled s
          → IsSettled (run_all same_key object_is body s)
      run_all-IsSettled done s h = h
      run_all-IsSettled (and_then a rest) s h =
          run_all-IsSettled rest (run same_key object_is a s) (run-IsSettled a s h)

    create-IsSettled : (initial : Key → Value) → IsSettled (create initial)
    unfolding create
    create-IsSettled initial = record { idle = refl; queued = (λ e. cc); shown = inl refl }

    end_batch-notifications :
        (s t : Store Key Value)
        → IsWithin (begin_batch s) t
        → let u = end_batch s.pending_notification t in
          ((u.notifications ≡ suc s.notifications) × (u.seen ≡ u.state))
          ⊎ ((u.notifications ≡ s.notifications) × (u.state ≡ s.state))
    unfolding end_batch begin_batch notify
    end_batch-notifications s t v =
        elim (Bool-cases (t.pending_notification || s.pending_notification)) [
          | inl e ↦ rw e (inl (ap suc v.notifications, refl))
          | inr e ↦ rw e (elim v.changed [
            | inl d ↦ elim (not_true_of_or_false _ _ e d) [ ]
            | inr d ↦ inr (v.notifications, d.0)
          ])
        ]

    run_microtask-IsSettled : (s : Store Key Value) → IsSettled s → IsSettled (run_microtask s)
    unfolding run_microtask notify
    run_microtask-IsSettled s h =
        elim s.microtasks
          as (λ n. IsSettled (elim n [
            | zero ↦ s
            | suc n ↦ notify (record s { pending_notification = false; microtasks = n })
          ])) [ zero ↦ h | suc n ↦ record { idle = h.idle; queued = (λ e. cc); shown = inl refl } ]

    handle_all-IsSettled :
        (events : List (Event Key Value)) (s : Store Key Value)
        → IsSettled s
        → IsSettled (handle_all same_key object_is events s)
    unfolding handle_all handle
    handle_all-IsSettled [] s h = h
    handle_all-IsSettled (turn body ∷ es) s h =
        handle_all-IsSettled es (run_all same_key object_is body s) (run_all-IsSettled body s h)
    handle_all-IsSettled (microtask ∷ es) s h =
        handle_all-IsSettled es (run_microtask s) (run_microtask-IsSettled s h)

    -- No change goes unnoticed: after any turns of the program (setState and batch in any nesting)
    -- and any of the callbacks that they queue, no batch is left open, and once no callback is
    -- queued any more, the listeners have seen the present state.
    pub handle_all-create :
        (initial : Key → Value) (events : List (Event Key Value))
        → let s = handle_all same_key object_is events (create initial) in
          (s.is_batching ≡ false) × ((s.seen ≡ s.state) ⊎ (0 < s.microtasks))
    handle_all-create initial events =
        let h = handle_all-IsSettled events (create initial) (create-IsSettled initial) in
        (h.idle, h.shown)

    -- A batch outside all others notifies at its end, and once only: either the listeners are called a
    -- single time and have seen the state that it leaves, or they are not called and the state is as
    -- it was before.
    pub run-batch :
        (body : Actions Key Value) (s : Store Key Value)
        → s.is_batching ≡ false
        → let t = run same_key object_is (batch body) s in
          ((t.notifications ≡ suc s.notifications) × (t.seen ≡ t.state))
          ⊎ ((t.notifications ≡ s.notifications) × (t.state ≡ s.state))
    run-batch body s b =
        subst
          (λ t.
            ((t.notifications ≡ suc s.notifications) × (t.seen ≡ t.state))
            ⊎ ((t.notifications ≡ s.notifications) × (t.state ≡ s.state)))
          (sym (run-batch_outer same_key object_is body s b))
          (end_batch-notifications s _
            (run_all-IsWithin same_key object_is body (begin_batch s) (unfold begin_batch in refl)))
