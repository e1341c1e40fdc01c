-- ===== src/Otp/Tests.antt =====
-- Runs of the mock sender with one number and its code.
use assen_platform.Common.{
  ℕ, ◌≤◌, ◌≡◌, refl, true, false, none, some, List, [], ◌∷◌, arith, Text, text_eq, inr,
}
use assen_platform.Common.Table.{count}
use assen_platform.Otp.{
  MockOtpSender, mock_otp_sender, Entries, Guess, InOrderFrom, is_wrong, fresh_entry, set_entry,
  send, verify, verify_all, compare_digest,
}
use assen_platform.Otp.Lockout.{verify_all-spent}

abbrev phone : Text
phone = 48 ∷ 49 ∷ 48 ∷ []

-- A stand-in for the HMAC.
abbrev sender : MockOtpSender
sender = mock_otp_sender (λ number. 55 ∷ number)

abbrev code : Text
code = 55 ∷ phone

abbrev guess : ℕ → Text → Guess
guess at text = record { at = at; phone = phone; code = text }

abbrev no_entries : Entries
no_entries number = none

abbrev sent : Entries
sent = set_entry phone (fresh_entry sender 10 phone) no_entries

abbrev wrong_guesses : List Guess
wrong_guesses = guess 15 [] ∷ guess 14 [] ∷ guess 13 [] ∷ guess 12 [] ∷ guess 11 [] ∷ []

sent_run : send sender 10 phone no_entries ≡ some sent
unfolding send
sent_run = refl

right_run : (verify sender 11 phone code sent).0 ≡ some true
unfolding verify text_eq compare_digest
right_run = refl

wrong_guesses-InOrder : InOrderFrom 10 (guess 20 code ∷ wrong_guesses)
unfolding InOrderFrom
wrong_guesses-InOrder = omega arith

all_wrong : 5 ≤ count (is_wrong sender phone) wrong_guesses
unfolding text_eq compare_digest
all_wrong = omega arith

verify_all-spent_example :
    (verify sender 20 phone code (verify_all sender wrong_guesses sent)).0 ≡ some false
verify_all-spent_example =
    verify_all-spent sender 10 phone no_entries sent wrong_guesses (guess 20 code) (omega arith)
      (omega arith) sent_run wrong_guesses-InOrder refl (inr all_wrong)
