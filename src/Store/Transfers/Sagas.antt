-- ===== src/Store/Transfers/Sagas.antt =====
-- The saga's compare-and-set: `UpdateTransferSaga`.
use go_odtbank.Base.{
  String, Bool, true, false, ◌&&◌, ◌≡◌, ◌≢◌, ◌⊎◌, inl, inr, refl, sym, ap, subst, ◌∙◌, some, none,
  lookup, insert, lookup-insert_self, lookup-insert_ne, arith, Bool-cases, Option-cases,
}
use go_odtbank.Domain.Event.{Time}
use go_odtbank.Domain.Error.{ok, err, transfer_not_found}
use go_odtbank.Domain.Transfer.{
  TransferRecord, TransferSagaUpdate, TransferStatus, pending, is_pending, step_eq, SagaStep,
}
use go_odtbank.Store.{MemoryStore, Outcome}
use go_odtbank.Store.Transfers.{update_transfer_saga, updated_transfer}

pub step_eq_sound : (a b : SagaStep) → step_eq a b ≡ true → a ≡ b
step_eq_sound a b h = ground arith

pub step_eq_self : (a : SagaStep) → step_eq a a ≡ true
step_eq_self a = ground arith

pub is_pending_sound : (s : TransferStatus) → is_pending s ≡ true → s ≡ pending
is_pending_sound s h = ground arith

-- Where the transfer is pending at the expected step, the update is written.
pub update_applies :
    (id : String) (u : TransferSagaUpdate) (at : Time) (m : MemoryStore) (t : TransferRecord)
    → lookup id m.transfers ≡ some t
    → t.status ≡ pending
    → t.current_step ≡ u.expected_step
    → update_transfer_saga id u at m
      ≡ (ok true, record m { transfers = insert id (updated_transfer t u at) m.transfers })
unfolding update_transfer_saga
update_applies id u at m t found p s =
    rw (found, update_transfer_saga) (rw (p, s, step_eq_self u.expected_step) refl)

-- Elsewhere it changes nothing, and says so.
pub update_refused :
    (id : String) (u : TransferSagaUpdate) (at : Time) (m : MemoryStore) (t : TransferRecord)
    → lookup id m.transfers ≡ some t
    → (t.status ≢ pending) ⊎ (t.current_step ≢ u.expected_step)
    → update_transfer_saga id u at m ≡ (ok false, m)
unfolding update_transfer_saga
update_refused id u at m t found bad =
    let blocked : (is_pending t.status && step_eq t.current_step u.expected_step) ≡ false =
      ground
        (arith, bad, is_pending_sound t.status, step_eq_sound t.current_step u.expected_step) in
    rw (found, update_transfer_saga) (rw blocked refl)

pub update_unknown :
    (id : String) (u : TransferSagaUpdate) (at : Time) (m : MemoryStore)
    → lookup id m.transfers ≡ none
    → update_transfer_saga id u at m ≡ (err transfer_not_found, m)
unfolding update_transfer_saga
update_unknown id u at m e = rw (e, update_transfer_saga) refl

-- An update of a known transfer is written, or is refused.
pub update_cases :
    (id : String) (u : TransferSagaUpdate) (at : Time) (m : MemoryStore) (t : TransferRecord)
    → lookup id m.transfers ≡ some t
    → ((t.status ≡ pending)
        × (t.current_step ≡ u.expected_step)
        × (update_transfer_saga id u at m
            ≡ (ok true, record m { transfers = insert id (updated_transfer t u at) m.transfers })))
      ⊎ (update_transfer_saga id u at m ≡ (ok false, m))
unfolding update_transfer_saga
update_cases id u at m t found =
    elim (Bool-cases (is_pending t.status && step_eq t.current_step u.expected_step)) [
      | inl go ↦ inl (
        is_pending_sound t.status (ground arith),
        step_eq_sound t.current_step u.expected_step (ground arith),
        rw (found, update_transfer_saga) (rw go refl),
      )
      | inr stop ↦ inr (rw (found, update_transfer_saga) (rw stop refl))
    ]

away :
    (t : TransferRecord) (u v : TransferSagaUpdate) (at : Time)
    → (u.status ≢ pending) ⊎ (u.current_step ≢ u.expected_step)
    → v.expected_step ≡ u.expected_step
    → let t' = updated_transfer t u at in
      (t'.status ≢ pending) ⊎ (t'.current_step ≢ v.expected_step)
unfolding updated_transfer
away t u v at (inl h) e = inl h
away t u v at (inr h) e = inr (λ k. h (k ∙ e))

-- Where one update has been written, and took the transfer from its step or from being pending, a
-- second one that expected the same step is refused and changes nothing, whoever makes it.
pub update_once :
    (id : String) (u v : TransferSagaUpdate) (at later : Time) (m m' : MemoryStore)
    → update_transfer_saga id u at m ≡ (ok true, m')
    → (u.status ≢ pending) ⊎ (u.current_step ≢ u.expected_step)
    → v.expected_step ≡ u.expected_step
    → update_transfer_saga id v later m' ≡ (ok false, m')
update_once id u v at later m m' done moved same = elim (Option-cases (lookup id m.transfers)) [
  | inl e ↦ absurd (cc (update_unknown id u at m e))
  | inr (t, e) ↦ elim (update_cases id u at m t e) [
    | inr refused ↦ absurd (cc (refused))
    | inl (_, _, written) ↦
        let after : record m { transfers = insert id (updated_transfer t u at) m.transfers } ≡ m' =
          ap (λ (o : Outcome Bool). o.1) (sym written ∙ done) in
        let found : lookup id m'.transfers ≡ some (updated_transfer t u at) =
          subst (λ (s : MemoryStore). lookup id s.transfers ≡ some (updated_transfer t u at)) after
            (lookup-insert_self id (updated_transfer t u at) m.transfers) in
        update_refused id v later m' (updated_transfer t u at) found (away t u v at moved same)
  ]
]

-- Every update keeps the other transfers, and all that the store holds beside the transfers.
pub update_frame :
    (id : String) (u : TransferSagaUpdate) (at : Time) (m : MemoryStore)
    → let m' = (update_transfer_saga id u at m).1 in
      (m' ≡ record m { transfers = m'.transfers })
      × ((j : String) → j ≢ id → lookup j m'.transfers ≡ lookup j m.transfers)
update_frame id u at m = elim (Option-cases (lookup id m.transfers)) [
  | inl e ↦ rw (update_unknown id u at m e) (refl, λ j h. refl)
  | inr (t, e) ↦ elim (update_cases id u at m t e) [
    | inr refused ↦ rw refused (refl, λ j h. refl)
    | inl (_, _, written) ↦ rw written (refl, λ j h. lookup-insert_ne j id _ m.transfers h)
  ]
]
