-- ===== src/Service/Onboarding.antt =====
-- internal/service/onboarding_service.go: an application is normalized, validated and stored. The
-- mail parser, dates, letter case, the sniffing of content and the hash of a password are arguments.
pub mod Checks
pub mod Acceptance
use Prim.Native.String.{◌++◌ as concat}
use go_odtbank.Base.{
  ℕ, ◌+◌, String, Bool, true, false, not, ◌&&◌, ◌||◌, ℤ, pos, ltb_ℤ, ltb, leb, ◌==◌, List, [], ◌∷◌,
  Option, none, some, codes, byte_length, length, trim_space, str_eq, if◌then◌else◌,
}
use go_odtbank.Domain.Event.{Time}
use go_odtbank.Domain.Error.{Error, Result, ok, err, other, error_text, onboarding_invalid}
use go_odtbank.Domain.Customer.{
  ResidentialAddress, GovernmentDocument, waiting, Customer, OnboardingCommand, OnboardingReceipt,
}
use go_odtbank.Store.{MemoryStore, Outcome}
use go_odtbank.Store.Customers.{create_customer_application}

-- What the service calls of Go's library, and of password.go.
pub record Library : Type 0 where
  pub is_address : String → Bool
  pub to_upper : String → String
  pub to_lower : String → String
  pub parse_date : String → Option Time
  pub year : Time → ℕ
  pub birthday_in : ℕ → Time → Time
  pub detect_content_type : List ℕ → String
  pub hash_password : String → Result String

module _ (lib : Library) where
  abbrev trimmed_address : ResidentialAddress → ResidentialAddress
  trimmed_address a = record {
    line1 = trim_space a.line1;
    line2 = trim_space a.line2;
    city = trim_space a.city;
    state_or_province = trim_space a.state_or_province;
    postal_code = trim_space a.postal_code;
    country = lib.to_upper (trim_space a.country);
  }

  abbrev trimmed_document : GovernmentDocument → GovernmentDocument
  trimmed_document d = record {
    kind = lib.to_lower (trim_space d.kind);
    number = lib.to_upper (trim_space d.number);
    issuing_country = lib.to_upper (trim_space d.issuing_country);
  }

  unfoldable pub normalize_onboarding : OnboardingCommand → OnboardingCommand
  normalize_onboarding c = record c {
    legal_first_name = trim_space c.legal_first_name;
    legal_last_name = trim_space c.legal_last_name;
    date_of_birth = trim_space c.date_of_birth;
    nationality = lib.to_upper (trim_space c.nationality);
    email = lib.to_lower (trim_space c.email);
    phone = trim_space c.phone;
    residential_address = trimmed_address c.residential_address;
    government_document = trimmed_document c.government_document;
  }

-- The pattern `^[A-Z]{2}$`
abbrev is_capital : ℕ → Bool
is_capital c = leb 65 c && leb c 90

abbrev pub is_country_code : List ℕ → Bool
is_country_code (a ∷ b ∷ []) = is_capital a && is_capital b
is_country_code _ = false

all_digits : List ℕ → Bool
all_digits [] = true
all_digits (c ∷ cs) = let rest = all_digits cs in leb 48 c && leb c 57 && rest

-- The pattern `^\+[1-9][0-9]{7,14}$`
unfoldable pub is_phone : List ℕ → Bool
unfolding all_digits
is_phone (p ∷ d ∷ ds) =
    p == 43 && leb 49 d && leb d 57 && all_digits ds && leb 7 (length ds) && leb (length ds) 14
is_phone _ = false

-- The texts that are required, with their fields.
abbrev pub required : OnboardingCommand → List (String × String)
required c =
    ("legal_first_name", c.legal_first_name)
    ∷ ("legal_last_name", c.legal_last_name)
    ∷ ("date_of_birth", c.date_of_birth)
    ∷ ("nationality", c.nationality)
    ∷ ("email", c.email)
    ∷ ("phone", c.phone)
    ∷ ("residential_address.line1", c.residential_address.line1)
    ∷ ("residential_address.city", c.residential_address.city)
    ∷ ("residential_address.postal_code", c.residential_address.postal_code)
    ∷ ("residential_address.country", c.residential_address.country)
    ∷ ("government_document.type", c.government_document.kind)
    ∷ ("government_document.number", c.government_document.number)
    ∷ ("government_document.issuing_country", c.government_document.issuing_country)
    ∷ []

unfoldable pub check_required : List (String × String) → Result (Unit {0})
check_required [] = ok tt
check_required ((field, value) ∷ rest) =
    let later = check_required rest in
    if str_eq value ""
    then err (onboarding_invalid field "is required")
    else if ltb 200 (byte_length value)
    then err (onboarding_invalid field "is too long")
    else later

abbrev pub country_codes : OnboardingCommand → List (String × String)
country_codes c =
    ("nationality", c.nationality)
    ∷ ("residential_address.country", c.residential_address.country)
    ∷ ("government_document.issuing_country", c.government_document.issuing_country)
    ∷ []

-- The loop over the map of countries.
unfoldable pub check_countries : List (String × String) → Result (Unit {0})
check_countries [] = ok tt
check_countries ((field, value) ∷ rest) =
    let later = check_countries rest in
    if is_country_code (codes value)
    then later
    else err (onboarding_invalid field "must be a two-letter country code")

abbrev pub is_document : String → Bool
is_document s = str_eq s "passport" || str_eq s "national_id" || str_eq s "driver_license"

abbrev pub is_image : String → Bool
is_image s = str_eq s "image/jpeg" || str_eq s "image/png" || str_eq s "image/webp"

infixl 5 ◌>>=◌ ◌>>◌
unfoldable pub ◌>>=◌ : {A B : Type 0} → Result A → (A → Result B) → Result B
err problem >>= next = err problem
ok value >>= next = next value

abbrev pub ◌>>◌ : {B : Type 0} → Result (Unit {0}) → Result B → Result B
check >> later = check >>= λ passed. later

-- `if !c { return validationError(field, message) }`
abbrev pub require : Bool → String → String → Result (Unit {0})
require c field message = if c then ok tt else err (onboarding_invalid field message)

abbrev pub past_date : Option Time → Time → Result Time
past_date none now = err (onboarding_invalid "date_of_birth" "must be a valid past date")
past_date (some birth) now =
    if ltb now birth
    then err (onboarding_invalid "date_of_birth" "must be a valid past date")
    else ok birth

module _ (lib : Library) where
  -- A year less before the birthday of this year; it is an int, so it may be below 0.
  abbrev pub is_adult : Time → Time → Bool
  is_adult birth now =
      let born = lib.year birth in
      if ltb now (lib.birthday_in (lib.year now) birth)
      then leb (born + 19) (lib.year now)
      else leb (born + 18) (lib.year now)

  unfoldable pub validate_onboarding : OnboardingCommand → Time → Result Time
  validate_onboarding c now = do
    require (leb 10 (byte_length c.password) && leb (byte_length c.password) 128) "password"
        "must contain 10 to 128 characters"
    check_required (required c)
    require (lib.is_address c.email) "email" "must be a valid email address"
    require (is_phone (codes c.phone)) "phone" "must use E.164 format"
    check_countries (country_codes c)
    require (is_document c.government_document.kind) "government_document.type" "is not supported"
    birth ← past_date (lib.parse_date c.date_of_birth) now
    require (is_adult birth now) "date_of_birth" "customer must be at least 18"
    require
        (not (ltb_ℤ c.initial_deposit (pos 0))
          && not (ltb_ℤ (pos 0) c.initial_deposit && ltb_ℤ c.initial_deposit (pos 1000)))
        "initial_deposit" "must be zero or at least 10.00"
    require (not (length c.passport_image == 0)) "passport_image" "is required"
    require (leb (length c.passport_image) 5242880) "passport_image" "must not exceed 5 MB"
    require (is_image (lib.detect_content_type c.passport_image)) "passport_image"
        "must be a JPEG, PNG, or WebP image"
    ok birth

  abbrev pub new_customer : OnboardingCommand → Time → String → String → Time → Customer
  new_customer c birth hash id now = record {
    id = id;
    account_id = "";
    legal_first_name = c.legal_first_name;
    legal_last_name = c.legal_last_name;
    date_of_birth = birth;
    nationality = c.nationality;
    email = c.email;
    phone = c.phone;
    password_hash = hash;
    residential_address = c.residential_address;
    government_document = c.government_document;
    passport_image = c.passport_image;
    passport_image_mime = lib.detect_content_type c.passport_image;
    kyc_status = waiting;
    requested_deposit = c.initial_deposit;
    reviewed_by = "";
    reviewed_at = none;
    rejection_reason = "";
    created_at = now;
  }

  abbrev pub wrapped : {A : Type 0} → String → Result A → Result A
  wrapped prefix (ok a) = ok a
  wrapped prefix (err e) = err (other (concat prefix (error_text e)))

  -- Up to the call of the store: the customer, by the two readings of the clock and the random bytes.
  unfoldable pub applicant : OnboardingCommand → Time → Result String → Time → Result Customer
  applicant command checked random now = do
    let c = normalize_onboarding lib command
    birth ← validate_onboarding c checked
    hash ← wrapped "hash password: " (lib.hash_password c.password)
    id ← wrapped "generate customer id: " random
    ok (new_customer c birth hash (concat "cus_" id) now)

  abbrev pub receipt : Customer → Outcome (Unit {0}) → Outcome OnboardingReceipt
  receipt c (ok u, m) = (ok (record { customer_id = c.id; kyc_status = waiting }), m)
  receipt c (err e, m) = (err e, m)

  unfoldable pub onboard :
      OnboardingCommand → Time → Result String → Time → MemoryStore → Outcome OnboardingReceipt
  onboard command checked random now m = elim (applicant command checked random now) [
    | err e ↦ (err e, m)
    | ok c ↦ receipt c (create_customer_application c m)
  ]
