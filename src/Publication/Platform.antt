-- ===== src/Publication/Platform.antt =====
-- What publication.py uses of Python's Unicode tables and date parser, as a parameter.
use postgresbuild.Prelude.{ℕ, Bool, Option}
use postgresbuild.Prelude.Text.{Text}

-- A parsed time: with no offset, or with one, by its UTC minute as `%Y%m%d%H%M` prints it.
pub data Moment : Type 0 where
  naive : Moment
  aware : (minute : Text) → Moment

pub record Platform : Type 0 where
  -- The value of a decimal digit of any script, as `\d`, `int` and `isdecimal` read it.
  pub decimal : ℕ → Option ℕ
  -- `str.isdigit` of one character.
  pub is_digit_char : ℕ → Bool
  -- `datetime.fromisoformat`; `none` is its `ValueError`.
  pub from_iso : Text → Option Moment
