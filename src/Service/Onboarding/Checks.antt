-- ===== src/Service/Onboarding/Checks.antt =====
-- What the checks of an application require, apart from the code, and that the code checks just that.
use go_odtbank.Base.{
  ℕ, ◌+◌, ◌≤◌, ◌<◌, String, Bool, true, false, not, ◌&&◌, ◌||◌, ◌≡◌, ◌≢◌, ◌↔◌, refl, ◌⊎◌, ◌==◌, ltb,
  leb, ltb_ℤ, pos, negsuc, ◌≤ℤ◌, arith, List, [], ◌∷◌, Option, none, some, codes, byte_length,
  length, str_eq, eq_iff, if_both, subst,
}
use go_odtbank.Domain.Event.{Time, Money}
use go_odtbank.Domain.Error.{Error, Result, ok, err, onboarding_invalid}
use go_odtbank.Domain.Customer.{OnboardingCommand}
use go_odtbank.Service.Onboarding.{
  Library, is_phone, is_country_code, required, check_required, check_countries, country_codes,
  require, past_date, is_adult, validate_onboarding, ◌>>=◌, ◌>>◌,
}

-- The predicate on every text of a list of fields.
abbrev pub EachText : (String → Type 0) → List (String × String) → Type 0
EachText P [] = Unit
EachText P ((field, value) ∷ rest) = P value × EachText P rest

abbrev pub IsFilled : String → Type 0
IsFilled s = (s ≢ "") × (byte_length s ≤ 200)

abbrev pub IsOneOf : String → String → String → String → Type 0
IsOneOf a b c s = (s ≡ a) ⊎ (s ≡ b) ⊎ (s ≡ c)

-- At least 18 years old at `now`.
abbrev pub IsOfAge : Library → Time → Time → Type 0
IsOfAge lib birth now =
    (lib.year birth + 18 < lib.year now)
    ⊎ ((lib.year birth + 18 ≡ lib.year now) × (lib.birthday_in (lib.year now) birth ≤ now))

-- Nothing, or at least 10.00.
abbrev pub IsDeposit : Money → Type 0
IsDeposit a = (a ≡ pos 0) ⊎ (pos 1000 ≤ℤ a)

-- What a normalized application must be at `now`, with the birth date that it states.
pub record IsAcceptable (lib : Library) (c : OnboardingCommand) (now birth : Time) : Type 0 where
  pub password : (10 ≤ byte_length c.password) × (byte_length c.password ≤ 128)
  pub texts : EachText IsFilled (required c)
  pub address : lib.is_address c.email ≡ true
  pub phone : is_phone (codes c.phone) ≡ true
  pub countries : EachText (λ s. is_country_code (codes s) ≡ true) (country_codes c)
  pub document : IsOneOf "passport" "national_id" "driver_license" c.government_document.kind
  pub date : lib.parse_date c.date_of_birth ≡ some birth
  pub past : birth ≤ now
  pub age : IsOfAge lib birth now
  pub first_deposit : IsDeposit c.initial_deposit
  pub image : (0 < length c.passport_image) × (length c.passport_image ≤ 5_242_880)
  pub kind :
      IsOneOf "image/jpeg" "image/png" "image/webp" (lib.detect_content_type c.passport_image)

bind_ok :
    {A B : Type 0} (first : Result A) (next : A → Result B) {b : B}
    → (first >>= next) ≡ ok b
    → (a : A) × (first ≡ ok a) × (next a ≡ ok b)
unfolding ◌>>=◌
bind_ok (err e) next h = absurd (cc h)
bind_ok (ok a) next h = (a, refl, h)

require_ok :
    {B : Type 0} (c : Bool) (field message : String) (k : Result B) {b : B}
    → (require c field message >> k) ≡ ok b
    → (c ≡ true) × (k ≡ ok b)
unfolding ◌>>=◌
require_ok true field message k h = (refl, h)
require_ok false field message k h = absurd (cc h)

between : (lo hi n : ℕ) → (leb lo n && leb n hi ≡ true) ↔ ((lo ≤ n) × (n ≤ hi))
between lo hi n = ground arith

at_most : (n hi : ℕ) → (leb n hi ≡ true) ↔ (n ≤ hi)
at_most n hi = ground arith

some_bytes : (n : ℕ) → (not (n == 0) ≡ true) ↔ (0 < n)
some_bytes n = ground arith

one_of : (a b c s : String) → (str_eq s a || str_eq s b || str_eq s c ≡ true) ↔ IsOneOf a b c s
one_of a b c s = ground (arith, eq_iff s a, eq_iff s b, eq_iff s c)

deposit_lem :
    (a : Money)
    → (not (ltb_ℤ a (pos 0)) && not (ltb_ℤ (pos 0) a && ltb_ℤ a (pos 1000)) ≡ true) ↔ IsDeposit a
deposit_lem (pos n) = ground arith
deposit_lem (negsuc n) = ground arith

age_lem :
    (lib : Library) (birth now : Time) → (is_adult lib birth now ≡ true) ↔ IsOfAge lib birth now
age_lem lib birth now = ground arith

filled : (s : String) → (str_eq s "" ≡ false) × (ltb 200 (byte_length s) ≡ false) ↔ IsFilled s
filled s = ground (arith, eq_iff s "")

texts_lem : (l : List (String × String)) → (check_required l ≡ ok tt) ↔ EachText IsFilled l
unfolding check_required
texts_lem [] = ((λ h. tt), (λ h. refl))
texts_lem ((field, value) ∷ rest) = ground (arith, texts_lem rest, filled value)

countries_lem :
    (l : List (String × String))
    → (check_countries l ≡ ok tt) ↔ EachText (λ s. is_country_code (codes s) ≡ true) l
unfolding check_countries
countries_lem [] = ((λ h. tt), (λ h. refl))
countries_lem ((field, value) ∷ rest) = ground (arith, countries_lem rest)

past_lem :
    (o : Option Time) (now birth : Time)
    → (past_date o now ≡ ok birth) ↔ ((o ≡ some birth) × (birth ≤ now))
past_lem none now birth = ((λ h. absurd (cc h)), (λ h. absurd (cc (h.0))))
past_lem (some b) now birth = ground arith

-- What is checked is what is required.
pub validate-IsAcceptable :
    (lib : Library) (c : OnboardingCommand) (now birth : Time)
    → validate_onboarding lib c now ≡ ok birth
    → IsAcceptable lib c now birth
unfolding validate_onboarding
validate-IsAcceptable lib c now birth h =
    let (password, h1) = require_ok _ _ _ _ h in
    let (u, texts, h2) = bind_ok (check_required (required c)) _ h1 in
    let (address, h3) = require_ok _ _ _ _ h2 in
    let (phone, h4) = require_ok _ _ _ _ h3 in
    let (v, countries, h5) = bind_ok (check_countries (country_codes c)) _ h4 in
    let (document, h6) = require_ok _ _ _ _ h5 in
    let (b, date, h7) = bind_ok (past_date (lib.parse_date c.date_of_birth) now) _ h6 in
    let (adult, h8) = require_ok _ _ _ _ h7 in
    let (deposit, h9) = require_ok _ _ _ _ h8 in
    let (image, h10) = require_ok _ _ _ _ h9 in
    let (size, h11) = require_ok _ _ _ _ h10 in
    let (kind, h12) = require_ok _ _ _ _ h11 in
    let same : birth ≡ b = cc h12 in
    let (parsed, past) = (past_lem _ now b).0 date in
    rw same (record {
      password = (between 10 128 (byte_length c.password)).0 password;
      texts = (texts_lem (required c)).0 texts;
      address = address;
      phone = phone;
      countries = (countries_lem (country_codes c)).0 countries;
      document = (one_of _ _ _ c.government_document.kind).0 document;
      date = parsed;
      past = past;
      age = (age_lem lib b now).0 adult;
      first_deposit = (deposit_lem c.initial_deposit).0 deposit;
      image = (
        (some_bytes (length c.passport_image)).0 image,
        (at_most (length c.passport_image) 5242880).0 size,
      );
      kind = (one_of _ _ _ (lib.detect_content_type c.passport_image)).0 kind;
    })

-- What is required passes the checks.
pub IsAcceptable-validate :
    (lib : Library) (c : OnboardingCommand) (now birth : Time)
    → IsAcceptable lib c now birth
    → validate_onboarding lib c now ≡ ok birth
unfolding validate_onboarding ◌>>=◌
IsAcceptable-validate lib c now birth a =
    rw ((between 10 128 (byte_length c.password)).1 a.password) (
      rw ((texts_lem (required c)).1 a.texts) (
        rw (a.address, a.phone)
          (rw ((countries_lem (country_codes c)).1 a.countries) (
            rw ((one_of _ _ _ c.government_document.kind).1 a.document) (
              rw ((past_lem (lib.parse_date c.date_of_birth) now birth).1 (a.date, a.past)) (
                rw ((age_lem lib birth now).1 a.age) (
                  rw ((deposit_lem c.initial_deposit).1 a.first_deposit) (
                    rw ((some_bytes (length c.passport_image)).1 a.image.0) (
                      rw ((at_most (length c.passport_image) 5242880).1 a.image.1) (
                        rw ((one_of _ _ _ (lib.detect_content_type c.passport_image)).1 a.kind)
                          refl))))))))))

-- An error of the checks is one of validation.
abbrev IsChecked : {A : Type 0} → Result A → Type 0
IsChecked (ok a) = Unit
IsChecked (err e) = (field : String) × (message : String) × (e ≡ onboarding_invalid field message)

then-IsChecked :
    {A B : Type 0} (first : Result A) (next : A → Result B)
    → IsChecked first
    → ((a : A) → IsChecked (next a))
    → IsChecked (first >>= next)
unfolding ◌>>=◌
then-IsChecked (err e) next h k = h
then-IsChecked (ok a) next h k = k a

require-IsChecked : (c : Bool) (field message : String) → IsChecked (require c field message)
require-IsChecked true field message = tt
require-IsChecked false field message = (field, message, refl)

require_then :
    {B : Type 0} (c : Bool) (field message : String) (k : Result B)
    → IsChecked k
    → IsChecked (require c field message >> k)
require_then c field message k h =
    then-IsChecked (require c field message) _ (require-IsChecked c field message) (λ u. h)

texts-IsChecked : (l : List (String × String)) → IsChecked (check_required l)
unfolding check_required
texts-IsChecked [] = tt
texts-IsChecked ((field, value) ∷ rest) =
    if_both IsChecked (str_eq value "") (field, "is required", refl)
      (if_both IsChecked (ltb 200 (byte_length value)) (field, "is too long", refl)
        (texts-IsChecked rest))

countries-IsChecked : (l : List (String × String)) → IsChecked (check_countries l)
unfolding check_countries
countries-IsChecked [] = tt
countries-IsChecked ((field, value) ∷ rest) =
    if_both IsChecked (is_country_code (codes value)) (countries-IsChecked rest)
      (field, "must be a two-letter country code", refl)

past-IsChecked : (o : Option Time) (now : Time) → IsChecked (past_date o now)
past-IsChecked none now = (_, _, refl)
past-IsChecked (some b) now = if_both IsChecked (ltb now b) (_, _, refl) tt

validate-IsChecked :
    (lib : Library) (c : OnboardingCommand) (now : Time) → IsChecked (validate_onboarding lib c now)
unfolding validate_onboarding
validate-IsChecked lib c now = require_then _ _ _ _ (
    then-IsChecked (check_required (required c)) _ (texts-IsChecked (required c)) λ u.
      require_then _ _ _ _ (
        require_then _ _ _ _ (
          then-IsChecked (check_countries (country_codes c)) _
            (countries-IsChecked (country_codes c))
            λ v. require_then _ _ _ _ (
              then-IsChecked (past_date (lib.parse_date c.date_of_birth) now) _
                (past-IsChecked (lib.parse_date c.date_of_birth) now)
                λ b. require_then _ _ _ _ (
                  require_then _ _ _ _
                    (require_then _ _ _ _ (require_then _ _ _ _ (require_then _ _ _ _ tt))))))))

-- An application that the checks refuse is not acceptable, and the error is one of validation.
pub validate_refuses :
    (lib : Library) (c : OnboardingCommand) (now : Time) (e : Error)
    → validate_onboarding lib c now ≡ err e
    → ¬ ((birth : Time) × IsAcceptable lib c now birth)
      × ((field : String) × (message : String) × (e ≡ onboarding_invalid field message))
validate_refuses lib c now e h = (
  λ (birth, a). cc (h, IsAcceptable-validate lib c now birth a),
  subst IsChecked h (validate-IsChecked lib c now),
)
