-- ===== src/ErrorHandler.antt =====
-- error_handler.hpp and error_handler.cpp in a build without NDEBUG: checks that write a line to the
-- log, and throw if they fail.
pub mod Failures
use iot_drive.Shared.{
  ℕ, Bool, true, false, not, List, ◌++◌, Option, none, some, codes, if◌then◌else◌,
}
use iot_drive.Logger.{info, Logger, log}
use iot_drive.Nbd.Options.Sizes.{print}

-- An `int`.
pub data ℤ : Type 0 where
  pos negsuc : ℕ → ℤ

-- __FILE_NAME__, __LINE__ and __PRETTY_FUNCTION__ of a call.
pub record Site : Type 0 where
  pub file : List ℕ
  pub line : ℕ
  pub function : List ℕ

unfoldable pub phrase_line : List ℕ → Site → List ℕ
phrase_line message site =
    codes "  "
    ++ site.file
    ++ codes "           "
    ++ site.function
    ++ codes "              "
    ++ print site.line
    ++ codes "    "
    ++ message

abbrev fail_text : List ℕ
fail_text = codes " FAIL"

abbrev success_text : List ℕ
success_text = codes " SUCCESS"

abbrev is_negative : ℤ → Bool
is_negative (pos n) = false
is_negative (negsuc n) = true

-- Each check returns the text of the exception that it throws, or none. `now` is the time of the call.
unfoldable pub negative_check : ℤ → List ℕ → Site → ℕ → Logger → Logger × Option (List ℕ)
negative_check value message site now l =
    let line = phrase_line message site in
    if is_negative value
    then (log info (line ++ fail_text) now l, some (line ++ fail_text))
    else (log info (line ++ success_text) now l, none)

module _ {ℓ} {T : Type ℓ} (is_equal : T → T → Bool) where
  unfoldable pub equal_to_check : T → T → List ℕ → Site → ℕ → Logger → Logger × Option (List ℕ)
  equal_to_check value check_value message site now l =
      let line = phrase_line message site in
      if is_equal check_value value
      then (log info (line ++ fail_text) now l, some (line ++ fail_text))
      else (log info (line ++ success_text) now l, none)

  unfoldable pub not_equal_to_check : T → T → List ℕ → Site → ℕ → Logger → Logger × Option (List ℕ)
  not_equal_to_check value check_value message site now l =
      let line = phrase_line message site in
      if not (is_equal check_value value)
      then (log info (line ++ fail_text) now l, some (line ++ fail_text))
      else (log info (line ++ success_text) now l, none)

unfoldable pub just_log : List ℕ → Site → ℕ → Logger → Logger
just_log message site now l = log info (phrase_line message site) now l
