-- ===== src/Grid/Store/Within.antt =====
-- What the store of useDataGrid does within a batch.
use mizumi.Prelude.{
  ◌≡◌, refl, sym, ap, subst, ◌∙◌, ◌⊎◌, inl, inr, Bool, true, false, Bool-cases, if◌then◌else◌,
}
use mizumi.Grid.Store.{
  Action, set_state, batch, Actions, done, and_then, Store, mark_pending, begin_batch, end_batch,
  set_value, run, run_all,
}

module _ {Key Value : Type 0} where
  -- From `s` to `t` within a batch: nobody is notified, and a change is noted.
  pub record IsWithin (s t : Store Key Value) : Type 0 where
    pub batching : t.is_batching ≡ true
    pub microtasks : t.microtasks ≡ s.microtasks
    pub notifications : t.notifications ≡ s.notifications
    pub seen : t.seen ≡ s.seen
    pub changed :
        (t.pending_notification ≡ true)
        ⊎ ((t.state ≡ s.state) × (t.pending_notification ≡ s.pending_notification))

  IsWithin-refl : (s : Store Key Value) → s.is_batching ≡ true → IsWithin s s
  IsWithin-refl s b = record {
    batching = b;
    microtasks = refl;
    notifications = refl;
    seen = refl;
    changed = inr (refl, refl);
  }

  IsWithin-trans : {s t u : Store Key Value} → IsWithin s t → IsWithin t u → IsWithin s u
  IsWithin-trans {s} {t} {u} v w = record {
    batching = w.batching;
    microtasks = w.microtasks ∙ v.microtasks;
    notifications = w.notifications ∙ v.notifications;
    seen = w.seen ∙ v.seen;
    changed = go v.changed w.changed;
  }
    where
      go :
          (t.pending_notification ≡ true)
            ⊎ ((t.state ≡ s.state) × (t.pending_notification ≡ s.pending_notification))
          → (u.pending_notification ≡ true)
            ⊎ ((u.state ≡ t.state) × (u.pending_notification ≡ t.pending_notification))
          → (u.pending_notification ≡ true)
            ⊎ ((u.state ≡ s.state) × (u.pending_notification ≡ s.pending_notification))
      go _ (inl e) = inl e
      go (inl d) (inr (_, e)) = inl (e ∙ d)
      go (inr (d, d')) (inr (e, e')) = inr (e ∙ d, e' ∙ d')

  module _ (same_key : Key → Key → Bool) (object_is : Value → Value → Bool) where
    set_value-IsWithin :
        (key : Key) (value : Value) (s : Store Key Value)
        → s.is_batching ≡ true
        → IsWithin s (set_value same_key object_is key value s)
    unfolding set_value mark_pending
    set_value-IsWithin key value s b = elim (Bool-cases (object_is (s.state key) value)) [
      | inl e ↦ rw e (IsWithin-refl s b)
      | inr e ↦
          rw (e, b)
            (record {
              batching = refl;
              microtasks = refl;
              notifications = refl;
              seen = refl;
              changed = inl refl;
            })
    ]

    run-batch_inner :
        (body : Actions Key Value) (s : Store Key Value)
        → s.is_batching ≡ true
        → run same_key object_is (batch body) s ≡ run_all same_key object_is body s
    unfolding run
    run-batch_inner body s b =
        ap
          (λ c.
            if c
            then run_all same_key object_is body s
            else end_batch s.pending_notification (run_all same_key object_is body (begin_batch s)))
          b

    pub run-batch_outer :
        (body : Actions Key Value) (s : Store Key Value)
        → s.is_batching ≡ false
        → run same_key object_is (batch body) s
          ≡ end_batch s.pending_notification (run_all same_key object_is body (begin_batch s))
    unfolding run
    run-batch_outer body s b =
        ap
          (λ c.
            if c
            then run_all same_key object_is body s
            else end_batch s.pending_notification (run_all same_key object_is body (begin_batch s)))
          b

    mutual
      unfolding run run_all begin_batch

      run-IsWithin :
          (a : Action Key Value) (s : Store Key Value)
          → s.is_batching ≡ true
          → IsWithin s (run same_key object_is a s)
      run-IsWithin (set_state key value) s b = set_value-IsWithin key value s b
      run-IsWithin (batch body) s b =
          subst (IsWithin s) (sym (run-batch_inner body s b)) (run_all-IsWithin body s b)

      pub run_all-IsWithin :
          (body : Actions Key Value) (s : Store Key Value)
          → s.is_batching ≡ true
          → IsWithin s (run_all same_key object_is body s)
      run_all-IsWithin done s b = IsWithin-refl s b
      run_all-IsWithin (and_then a rest) s b =
          let v = run-IsWithin a s b in
          IsWithin-trans v (run_all-IsWithin rest (run same_key object_is a s) v.batching)
