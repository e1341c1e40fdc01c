-- ===== src/Otp.antt =====
-- server/config/otp.py: the one-time passcodes of `MockOtpSender`.
mod Lockout
mod Tests
use assen_platform.Common.{
  ℕ, suc, ◌+◌, ◌≤◌, ◌<◌, ◌≡◌, refl, sym, ◌∙◌, Bool, true, false, ◌&&◌, ◌||◌, not, Option, none,
  some, List, [], ◌∷◌, ltb, leb, arith, Bool-cases, Option-cases, if◌then◌else◌, ap, ◌⊎◌, inl, inr,
  Text, text_eq, text_eq_iff, is_nonempty, is_some,
}
use mathlib.Core.Path.{subst}
use assen_platform.Common.Table.{All, total, count}

-- `_OtpEntry`
pub record OtpEntry : Type 0 where
  pub code : Text
  pub issued_at : ℕ
  pub attempts : ℕ
  pub consumed : Bool
  pub locked_until : Option ℕ

-- A sender: its parameters, with the HMAC that derives the code of a number.
pub record MockOtpSender : Type 0 where
  pub code_for : Text → Text
  pub ttl_seconds : ℕ
  pub max_attempts : ℕ
  pub lock_seconds : ℕ

abbrev pub mock_otp_sender : (Text → Text) → MockOtpSender
mock_otp_sender code_for = record {
  code_for = code_for;
  ttl_seconds = 180;
  max_attempts = 5;
  lock_seconds = 300;
}

-- `self._entries`
abbrev pub Entries : Type 0
Entries = Text → Option OtpEntry

abbrev pub set_entry : Text → OtpEntry → Entries → Entries
set_entry phone entry entries other = if text_eq phone other then some entry else entries other

abbrev pub is_locked : ℕ → Option ℕ → Bool
is_locked now none = false
is_locked now (some until) = ltb now until

abbrev is_ascii : Text → Bool
is_ascii [] = true
is_ascii (c ∷ text) = let rest = is_ascii text in ltb c 128 && rest

-- `hmac.compare_digest` of two strings; `none` is the TypeError where one is not ASCII.
unfoldable pub compare_digest : Text → Text → Option Bool
compare_digest a b = if is_ascii a && is_ascii b then some (text_eq a b) else none

-- The comparison told that the strings are equal, or that they are not.
abbrev pub is_match : Option Bool → Bool
is_match none = false
is_match (some equal) = equal

abbrev pub is_mismatch : Option Bool → Bool
is_mismatch none = false
is_mismatch (some equal) = not equal

module _ (s : MockOtpSender) where
  abbrev pub fresh_entry : ℕ → Text → OtpEntry
  fresh_entry now phone = record {
    code = s.code_for phone;
    issued_at = now;
    attempts = 0;
    consumed = false;
    locked_until = none;
  }

  -- `send`; `none` is the OtpError.
  unfoldable pub send : ℕ → Text → Entries → Option Entries
  send now phone entries =
      if is_nonempty phone then some (set_entry phone (fresh_entry now phone) entries) else none

  -- `verify`, on an armed entry; no answer is the TypeError.
  unfoldable pub verify_entry : ℕ → Text → OtpEntry → Option Bool × OtpEntry
  unfolding compare_digest
  verify_entry now code entry =
      if is_locked now entry.locked_until
      then (some false, entry)
      else if entry.consumed
      then (some false, entry)
      else if ltb (entry.issued_at + s.ttl_seconds) now
      then (some false, entry)
      else elim (compare_digest entry.code code) [
        | none ↦ (none, entry)
        | some equal ↦ if equal then (some true, record entry { consumed = true }) else (
          some false,
          record entry {
            attempts = entry.attempts + 1;
            locked_until =
                if leb s.max_attempts (entry.attempts + 1)
                then some (now + s.lock_seconds)
                else entry.locked_until;
          },
        )
      ]

  -- `verify`, on what `self._entries.get(phone)` gives.
  unfoldable pub verify_armed : ℕ → Text → Text → Entries → Option OtpEntry → Option Bool × Entries
  unfolding verify_entry compare_digest
  verify_armed now phone code entries none = (compare_digest (s.code_for phone) code, entries)
  verify_armed now phone code entries (some entry) =
      let answer = verify_entry now code entry in (answer.0, set_entry phone answer.1 entries)

  -- `verify`
  unfoldable pub verify : ℕ → Text → Text → Entries → Option Bool × Entries
  unfolding verify_armed
  verify now phone code entries = verify_armed now phone code entries (entries phone)

-- A call of `verify`.
pub record Guess : Type 0 where
  pub at : ℕ
  pub phone : Text
  pub code : Text

-- The guesses, the newest first, with the entries after all of them.
unfoldable pub verify_all : MockOtpSender → List Guess → Entries → Entries
verify_all s [] entries = entries
verify_all s (g ∷ guesses) entries = (verify s g.at g.phone g.code (verify_all s guesses entries)).1

unfoldable pub InOrderFrom : ℕ → List Guess → Type 0
InOrderFrom start [] = Unit
InOrderFrom start (g ∷ guesses) =
    (start ≤ g.at) × All (λ h. h.at ≤ g.at) guesses × InOrderFrom start guesses

-- A guess for the number with another code than the one that was sent, and one with that code.
abbrev pub is_wrong : MockOtpSender → Text → Guess → Bool
is_wrong s phone g = text_eq g.phone phone && is_mismatch (compare_digest (s.code_for phone) g.code)

abbrev pub is_right : MockOtpSender → Text → Guess → Bool
is_right s phone g = text_eq g.phone phone && is_match (compare_digest (s.code_for phone) g.code)
