-- ===== src/Domain/Customer.antt =====
-- internal/domain/onboarding.go, review.go and auth.go: customers, administrators and sessions.
use go_odtbank.Base.{ℕ, String, Bool, true, false, List, Option}
use go_odtbank.Domain.Event.{Money, Time}

pub record ResidentialAddress : Type 0 where
  pub line1 : String
  pub line2 : String
  pub city : String
  pub state_or_province : String
  pub postal_code : String
  pub country : String

pub record GovernmentDocument : Type 0 where
  pub kind : String
  pub number : String
  pub issuing_country : String

-- The constants `KYCWaiting`, `KYCApproved` and `KYCRejected`
pub data KycStatus : Type 0 where
  waiting approved rejected : KycStatus

abbrev pub is_waiting : KycStatus → Bool
is_waiting waiting = true
is_waiting approved = false
is_waiting rejected = false

abbrev pub kyc_eq : KycStatus → KycStatus → Bool
kyc_eq waiting waiting = true
kyc_eq approved approved = true
kyc_eq rejected rejected = true
kyc_eq _ _ = false

pub record Customer : Type 0 where
  pub id : String
  pub account_id : String
  pub legal_first_name : String
  pub legal_last_name : String
  pub date_of_birth : Time
  pub nationality : String
  pub email : String
  pub phone : String
  pub password_hash : String
  pub residential_address : ResidentialAddress
  pub government_document : GovernmentDocument
  pub passport_image : List ℕ
  pub passport_image_mime : String
  pub kyc_status : KycStatus
  pub requested_deposit : Money
  pub reviewed_by : String
  pub reviewed_at : Option Time
  pub rejection_reason : String
  pub created_at : Time

pub record OnboardingCommand : Type 0 where
  pub legal_first_name : String
  pub legal_last_name : String
  pub date_of_birth : String
  pub nationality : String
  pub email : String
  pub phone : String
  pub password : String
  pub residential_address : ResidentialAddress
  pub government_document : GovernmentDocument
  pub passport_image : List ℕ
  pub initial_deposit : Money

pub record OnboardingReceipt : Type 0 where
  pub customer_id : String
  pub kyc_status : KycStatus

pub record ApplicationSummary : Type 0 where
  pub customer_id : String
  pub legal_first_name : String
  pub legal_last_name : String
  pub email : String
  pub kyc_status : KycStatus
  pub requested_deposit : Money
  pub created_at : Time
  pub reviewed_at : Option Time
  pub rejection_reason : String

pub record Session : Type 0 where
  pub token_hash : String
  pub customer_id : String
  pub admin_id : String
  pub expires_at : Time

-- An administrator has no `KYCStatus`: the empty text of the source is `none`.
pub record Principal : Type 0 where
  pub customer_id : String
  pub account_id : String
  pub admin_id : String
  pub email : String
  pub role : String
  pub kyc_status : Option KycStatus
  pub rejection_reason : String

pub record Admin : Type 0 where
  pub id : String
  pub email : String
  pub password_hash : String
