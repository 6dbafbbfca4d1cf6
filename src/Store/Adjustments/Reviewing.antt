-- ===== src/Store/Adjustments/Reviewing.antt =====
-- Dual control: who may review a request, and how often.
use go_odtbank.Base.{
  String, true, false, not, ◌≡◌, ◌≢◌, ◌⊎◌, inl, inr, refl, List, Dict, some, none, lookup,
  lookup-insert_self, lookup-insert_ne, str_eq, eq_iff, str_eq_sound, Bool-cases, Option-cases,
  arith,
}
use go_odtbank.Domain.Event.{Event, Time}
use go_odtbank.Domain.Error.{
  Result, ok, err, adjustment_not_found, adjustment_reviewed, self_approval,
}
use go_odtbank.Domain.Adjustment.{
  AdjustmentRequest, AdjustmentStatus, waiting, approved, is_waiting,
}
use go_odtbank.Store.{MemoryStore, Outcome}
use go_odtbank.Store.Adjustments.{
  apply_adjustment, settle_adjustment, approve_adjustment, reject_adjustment,
}

not_waiting : (s : AdjustmentStatus) → not (is_waiting s) ≡ true → s ≢ waiting
not_waiting s h = ground arith

still_waiting : (s : AdjustmentStatus) → not (is_waiting s) ≡ false → s ≡ waiting
still_waiting s h = ground arith

-- What an approval of the request `id` by `admin` has done.
abbrev pub Approves : String → String → Time → MemoryStore → Outcome (Unit {0}) → Type 0
Approves id admin at m (ok _, m') =
    (r : AdjustmentRequest) × (lookup id m.adjustments ≡ some r)
    × (r.status ≡ waiting)
    × (r.created_by ≢ admin)
    × (apply_adjustment r at m.streams ≡ ok m'.streams)
    × (lookup id m'.adjustments
        ≡ some (record r { status = approved; reviewed_by = admin; reviewed_at = some at }))
    × ((j : String) → j ≢ id → lookup j m'.adjustments ≡ lookup j m.adjustments)
Approves id admin at m (err e, m') =
    (m' ≡ m)
    × (((e ≡ adjustment_not_found) × (lookup id m.adjustments ≡ none))
        ⊎ ((r : AdjustmentRequest) × (lookup id m.adjustments ≡ some r)
            × (((e ≡ adjustment_reviewed) × (r.status ≢ waiting))
                ⊎ ((e ≡ self_approval) × (r.created_by ≡ admin))
                ⊎ (apply_adjustment r at m.streams ≡ err e))))

settles :
    (id admin : String) (at : Time) (m : MemoryStore) (r : AdjustmentRequest)
    → lookup id m.adjustments ≡ some r
    → r.status ≡ waiting
    → r.created_by ≢ admin
    → (res : Result (Dict (List Event))) → apply_adjustment r at m.streams ≡ res
    → Approves id admin at m (settle_adjustment id r admin at res m)
settles id admin at m r found open_request other (err e) applied =
    (refl, inr (r, found, inr (inr applied)))
settles id admin at m r found open_request other (ok d) applied = (
  r,
  found,
  open_request,
  other,
  applied,
  lookup-insert_self id _ m.adjustments,
  λ j h. lookup-insert_ne j id _ m.adjustments h,
)

-- An approval goes through only for a waiting request, by an administrator who did not make it, and
-- only if its postings can be made; it then makes all of them and marks that request alone. Every
-- refusal has its reason and changes nothing, no event and no request.
pub approve_lem :
    (id admin : String) (at : Time) (m : MemoryStore)
    → Approves id admin at m (approve_adjustment id admin at m)
unfolding approve_adjustment
approve_lem id admin at m = elim (Option-cases (lookup id m.adjustments)) [
  | inl e ↦ rw (e, approve_adjustment) (refl, inl (refl, e))
  | inr (r, e) ↦
      rw (e, approve_adjustment)
        (elim (Bool-cases (not (is_waiting r.status))) [
          | inl reviewed ↦ rw reviewed (refl, inr (r, e, inl (refl, not_waiting r.status reviewed)))
          | inr open_request ↦ rw open_request (elim (Bool-cases (str_eq r.created_by admin)) [
            | inl own ↦
                rw own (refl, inr (r, e, inr (inl (refl, str_eq_sound r.created_by admin own))))
            | inr another ↦ rw another (
                settles id admin at m r e (still_waiting r.status open_request)
                  (λ k. cc (another, (eq_iff r.created_by admin).1 k)) _ refl)
          ])
        ])
]

reviewed_again :
    (id other : String) (at : Time) (m : MemoryStore) (r : AdjustmentRequest)
    → lookup id m.adjustments ≡ some r
    → r.status ≢ waiting
    → (approve_adjustment id other at m ≡ (err adjustment_reviewed, m))
      × ((reason : String) → reject_adjustment id other reason at m ≡ (err adjustment_reviewed, m))
unfolding approve_adjustment reject_adjustment
reviewed_again id other at m r e closed =
    let t : not (is_waiting r.status) ≡ true = ground arith in
    (rw (e, approve_adjustment) (rw t refl), λ reason. rw (e, reject_adjustment) (rw t refl))

-- A request that has been approved stays so: whoever approves or rejects it again is told that it
-- has been reviewed, and nothing changes, so its postings are made once.
pub approve_once :
    (id admin other : String) (at later : Time) (m m' : MemoryStore)
    → approve_adjustment id admin at m ≡ (ok tt, m')
    → (approve_adjustment id other later m' ≡ (err adjustment_reviewed, m'))
      × ((reason : String)
          → reject_adjustment id other reason later m' ≡ (err adjustment_reviewed, m'))
approve_once id admin other at later m m' done =
    let (r, _, _, _, _, marked, _) : Approves id admin at m (ok tt, m') =
      rw done at (approve_lem id admin at m) in
    reviewed_again id other later m' _ marked (λ e. cc e)
