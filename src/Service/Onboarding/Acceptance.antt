-- ===== src/Service/Onboarding/Acceptance.antt =====
-- What an accepted application has gone through, and why one is refused.
use Prim.Native.String.{◌++◌ as concat}
use go_odtbank.Base.{String, true, false, ◌||◌, ◌≡◌, ◌⊎◌, insert, lookup, trim_space}
use go_odtbank.Domain.Event.{Time}
use go_odtbank.Domain.Error.{
  Error, Result, ok, err, other, error_text, onboarding_invalid, customer_already_exists,
}
use go_odtbank.Domain.Customer.{Customer, OnboardingCommand, OnboardingReceipt, waiting}
use go_odtbank.Store.{MemoryStore, Outcome}
use go_odtbank.Store.Customers.{is_taken, is_known}
use go_odtbank.Service.Onboarding.{Library, normalize_onboarding, new_customer}
use go_odtbank.Service.Onboarding.Checks.{IsAcceptable}

-- What is stored, and told, of an application: an acceptable one, waiting, without an account.
abbrev pub Accepted :
    Library → OnboardingCommand → Time → MemoryStore → Outcome OnboardingReceipt → Type 0
Accepted lib command checked m out =
    (c : Customer) × (birth : Time) × (out ≡ (
      ok (record { customer_id = c.id; kyc_status = waiting }),
      record m { customers = insert c.id c m.customers },
    ))
    × IsAcceptable lib (normalize_onboarding lib command) checked birth
    × (is_taken c m.customers || is_known (lookup c.id m.customers) ≡ false)
    × (c.kyc_status ≡ waiting)
    × (c.account_id ≡ "")
    × (c.date_of_birth ≡ birth)
    × (c.email ≡ lib.to_lower (trim_space command.email))

-- Why an application is refused with the error `e`: it is not acceptable; or it is, but its password
-- could not be hashed, or there were no random bytes for its identifier, or its email, document or
-- identifier is taken.
abbrev pub Refused :
    Library → OnboardingCommand → Time → Result String → Time → MemoryStore → Error → Type 0
Refused lib command checked random now m e =
    let c = normalize_onboarding lib command in
    (¬ ((birth : Time) × IsAcceptable lib c checked birth)
      × ((field : String) × (message : String) × (e ≡ onboarding_invalid field message)))
    ⊎ ((birth : Time) × IsAcceptable lib c checked birth
        × (((cause : Error) × (lib.hash_password c.password ≡ err cause)
              × (e ≡ other (concat "hash password: " (error_text cause))))
            ⊎ ((cause : Error) × (random ≡ err cause)
                × (e ≡ other (concat "generate customer id: " (error_text cause))))
            ⊎ ((hash : String) × (id : String) × (lib.hash_password c.password ≡ ok hash)
                × (random ≡ ok id)
                × (is_taken (new_customer lib c birth hash (concat "cus_" id) now) m.customers
                      || is_known (lookup (concat "cus_" id) m.customers)
                    ≡ true)
                × (e ≡ customer_already_exists))))
