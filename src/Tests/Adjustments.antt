-- ===== src/Tests/Adjustments.antt =====
-- Requests of administrators: reviews and reversals.
use go_odtbank.Base.{
  byte_length, byte_count, trim_space, str_eq_complete, String, ◌≡◌, refl, lookup, insert, stream,
  arith, sub64, add64, wrap64, ◌+ℤ◌, ◌-ℤ◌,
}
use go_odtbank.Domain.Account.{replay_account, fold, fold_all}
use go_odtbank.Domain.Error.{ok, err, adjustment_reviewed, already_reversed, self_approval, Error}
use go_odtbank.Domain.Adjustment.{AdjustmentRequest, waiting}
use go_odtbank.Domain.Transfer.{TransferRecord, completed, reservation_captured}
use go_odtbank.Store.{MemoryStore}
use go_odtbank.Store.Adjustments.{
  transfer_reversed, create_adjustment, prepare_adjustment, approve_adjustment, reject_adjustment,
  apply_adjustment,
}
use go_odtbank.Store.Adjustments.Reviewing.{Approves, approve_lem, approve_once}
use go_odtbank.Store.Adjustments.Reversing.{
  Reverses, apply-Reverses, reverse_once, BooksReversal, manual_names_transfer,
}
use go_odtbank.Service.Adjustment.{create, approve, reject, stamped}
use go_odtbank.Service.Adjustment.Makers.{maker_barred}
use go_odtbank.Tests.Fixtures.{seeded, payment, request, reversal_request, settled}

-- The store after the request for a goodwill payment.
abbrev requested : MemoryStore
requested = (create_adjustment request seeded).1

approve_lem_example :
    Approves "adj_1" "adm_2" 9 requested (approve_adjustment "adj_1" "adm_2" 9 requested)
approve_lem_example = approve_lem "adj_1" "adm_2" 9 requested

abbrev stored : MemoryStore
stored = record seeded { adjustments = insert "adj_1" request seeded.adjustments }

abbrev after_approval : MemoryStore
after_approval = (approve_adjustment "adj_1" "adm_2" 9 stored).1

approve_once_example :
    (approve_adjustment "adj_1" "adm_3" 10 after_approval
      ≡ (err adjustment_reviewed, after_approval))
    × ((reason : String)
        → reject_adjustment "adj_1" "adm_3" reason 10 after_approval
          ≡ (err adjustment_reviewed, after_approval))
unfolding approve_adjustment lookup insert apply_adjustment
approve_once_example = approve_once "adj_1" "adm_2" "adm_3" 9 10 stored after_approval refl

apply-Reverses_example :
    Reverses reversal_request seeded.streams (apply_adjustment reversal_request 9 seeded.streams)
unfolding lookup stream replay_account fold_all fold add64 sub64 wrap64 ◌+ℤ◌ ◌-ℤ◌
apply-Reverses_example =
    apply-Reverses reversal_request 9 seeded.streams (str_eq_complete "trf_1" "" refl)
      (str_eq_complete "acc1" "acc2" refl) (omega arith)

abbrev second_request : AdjustmentRequest
second_request = record reversal_request { id = "adj_2" }

abbrev paid : TransferRecord
paid = record payment { status = completed; current_step = reservation_captured }

reverse_once_example :
    let m' = (create_adjustment reversal_request settled).1 in
    create_adjustment second_request m' ≡ (err already_reversed, m')
unfolding create_adjustment prepare_adjustment transfer_reversed lookup insert
reverse_once_example =
    reverse_once reversal_request second_request (record reversal_request { account_id = "acc1" })
      paid settled (create_adjustment reversal_request settled).1 refl refl refl (λ e. cc e)
      (λ e. cc e) refl refl

-- No transfer is known by this identifier.
abbrev mislabelled : AdjustmentRequest
mislabelled = record request { original_transfer_id = "trf_9"; counterparty_account_id = "acc2" }

manual_names_transfer_example :
    let (res, m') = create_adjustment mislabelled seeded in
    (res ≡ ok mislabelled)
    × BooksReversal mislabelled "adm_2" 9 seeded.streams (approve_adjustment "adj_1" "adm_2" 9 m')
unfolding stream lookup replay_account fold_all fold add64 sub64 wrap64 ◌+ℤ◌ ◌-ℤ◌
manual_names_transfer_example =
    manual_names_transfer mislabelled "adm_2" 9 seeded refl (str_eq_complete "trf_9" "" refl) refl
      (str_eq_complete "adm_1" "adm_2" refl) (λ e. cc e) (str_eq_complete "acc1" "acc2" refl)
      (omega arith)

-- What the service stores for the goodwill request of the administrator "adm_1".
abbrev accepted_request : AdjustmentRequest
accepted_request = stamped "01" "adm_1" 8 request

abbrev made : MemoryStore
made = (create (ok "01") request "adm_1" 8 seeded).1

maker_barred_example :
    (accepted_request.status ≡ waiting)
    × (accepted_request.created_by ≡ "adm_1")
    × (approve "adj_01" "adm_1" 9 made ≡ (err self_approval, made))
    × ((reason : String) → (e : Error) × (reject "adj_01" "adm_1" reason 9 made ≡ (err e, made)))
unfolding create create_adjustment prepare_adjustment byte_length byte_count trim_space lookup
    stream
maker_barred_example = maker_barred (ok "01") request accepted_request "adm_1" 8 9 seeded made refl
