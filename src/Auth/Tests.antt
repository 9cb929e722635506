-- ===== src/Auth/Tests.antt =====
-- Runs of the login throttle on concrete attempts, and the theorems at concrete inputs.
use elder_interview_ai.Prelude.{ℕ, ◌≤◌, ◌≡◌, refl, true, String, List, [], ◌∷◌, none, arith}
use elder_interview_ai.Prelude.Rows.{find, update_where}
use elder_interview_ai.Auth.Throttle.{
  Platform, AuthLoginThrottle, LoginAttemptReservation, identity_key, reserve_attempt, reserve_key,
  upsert, finalize_success, finalize_key,
}
use elder_interview_ai.Prelude.Text.{◌^^◌}
use elder_interview_ai.Auth.Throttle
use elder_interview_ai.Auth.Attempts.{
  Logins, Event, tries, succeeds, IsThrottled, run, run-IsThrottled,
}
use elder_interview_ai.Auth.Guesses.{Attempt, allowed_count, allowed_count-bounded}

abbrev joined : List String → String
joined [] = ""
joined (x ∷ xs) = x ^^ "|" ^^ joined xs

abbrev platform : Platform
platform = record { digest = joined; is_after = λ a b. true }

abbrev at : ℕ → Attempt
at t = record { now = t; email = "e"; address = "1" }

abbrev attempts : List Attempt
attempts = at 10 ∷ at 20 ∷ at 30 ∷ at 40 ∷ at 50 ∷ at 60 ∷ []

allowed_count-bounded_example : allowed_count platform "identity_ip|e|1|" attempts [] ≤ 4
unfolding find
allowed_count-bounded_example =
    allowed_count-bounded platform "e" "1" attempts 0 [] (ground arith) refl

-- Four of the six are allowed.
four_are_allowed : allowed_count platform "identity_ip|e|1|" attempts [] ≡ 4
unfolding allowed_count reserve_attempt reserve_key upsert find update_where
four_are_allowed = refl

abbrev none_yet : Logins
none_yet = record { now = 0; rows = []; reserved = [] }

abbrev events : List Event
events = tries 5 "e" "1" ∷ tries 5 "e" "1" ∷ succeeds 0 ∷ tries 5 "f" "1" ∷ []

run-IsThrottled_example : IsThrottled (run platform events none_yet)
run-IsThrottled_example =
    run-IsThrottled platform events none_yet (record { counted = tt; reservations = tt })

-- The success takes back its own failure and the other attempt's: the address has failed twice.
after_success :
    (run platform events none_yet).rows
    ≡ record {
      key_hash = "ip|1|";
      key_kind = Throttle.ip;
      failure_count = 2;
      window_started_at = 5;
      blocked_until = none;
    }
      ∷ record {
        key_hash = "identity_ip|f|1|";
        key_kind = Throttle.identity_ip;
        failure_count = 1;
        window_started_at = 15;
        blocked_until = none;
      }
      ∷ []
unfolding run reserve_attempt reserve_key upsert find update_where finalize_success finalize_key
after_success = refl
