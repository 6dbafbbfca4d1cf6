-- ===== src/Postgres/Adjustments/DualControl.antt =====
-- Who may review a request, whatever calls of the database fail.
use go_odtbank.Base.{String, false, ◌≡◌, ◌⊎◌}
use go_odtbank.Domain.Error.{Error}
use go_odtbank.Domain.Adjustment.{AdjustmentRequest, is_waiting}

-- The request is reviewed already, or the administrator made it.
abbrev pub IsBarred : AdjustmentRequest → String → Type 0
IsBarred r admin = (is_waiting r.status ≡ false) ⊎ (r.created_by ≡ admin)
