-- ===== src/Logging/Levels.antt =====
-- src/server/logging.cpp: the names of the levels.
use mcp_cpp.Common.{
  Option, some, Text, text_eq, text_eq_iff, if◌then◌else◌, ◌≡◌, ◌↔◌, refl, sym, ap, inl, inr,
  Bool-cases,
}
use mathlib.Core.Option.{some-injective}
use mcp_cpp.Logging.{
  LoggingLevel, debug, info, notice, warning, error, critical, alert, emergency,
  logging_level_to_string, logging_level_from_string,
}

from_string-to_string :
    (level : LoggingLevel) → logging_level_from_string (logging_level_to_string level) ≡ some level
unfolding logging_level_from_string logging_level_to_string text_eq
from_string-to_string debug = refl
from_string-to_string info = refl
from_string-to_string notice = refl
from_string-to_string warning = refl
from_string-to_string error = refl
from_string-to_string critical = refl
from_string-to_string alert = refl
from_string-to_string emergency = refl

tested :
    (name : Text) (level l : LoggingLevel) (rest : Option LoggingLevel)
    → (rest ≡ some level → logging_level_to_string level ≡ name)
    → (if text_eq name (logging_level_to_string l) then some l else rest) ≡ some level
    → logging_level_to_string level ≡ name
tested name level l rest k h = elim (Bool-cases (text_eq name (logging_level_to_string l))) [
  | inl e ↦
      let same : name ≡ logging_level_to_string l =
        (text_eq_iff name (logging_level_to_string l)).0 e in
      let here : l ≡ level = some-injective l level (rw e at h) in
      rw (same) (ap logging_level_to_string (sym here))
  | inr e ↦ k (rw e at h)
]

from_string_sound :
    (name : Text) (level : LoggingLevel)
    → logging_level_from_string name ≡ some level
    → logging_level_to_string level ≡ name
unfolding logging_level_from_string logging_level_to_string
from_string_sound name level =
    (tested name level debug _ (
      tested name level info _ (
        tested name level notice _ (
          tested name level warning _ (
            tested name level error _ (
              tested name level critical _
                (tested name level alert _ (tested name level emergency _ (λ h. absurd (cc))))))))))

-- A text is read as a level exactly when it is the name of that level: the eight names, and no
-- other text.
logging_level_from_string_iff :
    (name : Text) (level : LoggingLevel)
    → (logging_level_from_string name ≡ some level) ↔ (logging_level_to_string level ≡ name)
logging_level_from_string_iff name level =
    (from_string_sound name level, λ e. rw (sym e) (from_string-to_string level))
