-- ===== src/Tests/Onboarding.antt =====
-- An application on concrete data, with years of 100 instants.
use go_odtbank.Base.{◌+◌, ◌*◌, ◌/◌, ◌%◌, pos, ◌≡◌, refl, true, false, [], ◌∷◌, some}
use go_odtbank.Domain.Error.{Error, ok}
use go_odtbank.Domain.Customer.{OnboardingCommand}
use go_odtbank.Service.Onboarding.{Library, is_phone}

abbrev library : Library
library = record {
  is_address = λ s. true;
  to_upper = λ s. s;
  to_lower = λ s. s;
  parse_date = λ s. some 150;
  year = λ t. t / 100;
  birthday_in = λ y t. y * 100 + t % 100;
  detect_content_type = λ b. "image/png";
  hash_password = λ s. ok "hash";
}

abbrev command : OnboardingCommand
command = record {
  legal_first_name = "Ada";
  legal_last_name = "Example";
  date_of_birth = "1990-01-01";
  nationality = "TH";
  email = "ada@example.test";
  phone = "+6612345678";
  password = "correct horse";
  residential_address = record {
    line1 = "1 Road";
    line2 = "";
    city = "Town";
    state_or_province = "";
    postal_code = "10110";
    country = "TH";
  };
  government_document = record { kind = "passport"; number = "P1"; issuing_country = "TH" };
  passport_image = 1 ∷ 2 ∷ [];
  initial_deposit = pos 10000;
}

-- A leading 0 is not a number of E.164.
phone_zero : is_phone (43 ∷ 48 ∷ 49 ∷ 50 ∷ 51 ∷ 52 ∷ 53 ∷ 54 ∷ 55 ∷ []) ≡ false
unfolding is_phone
phone_zero = refl
