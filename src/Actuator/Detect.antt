-- ===== src/Actuator/Detect.antt =====
-- internal/actuator/resizer.go: `DetectInPlaceResize`.
use kubera.Base.{Bool, ◌&&◌, ◌||◌, Option, none, some, String, ℤ, pos, leb_ℤ, ltb_ℤ}

-- The version that API discovery gives.
pub record Version : Type 0 where
  pub major : String
  pub minor : String

-- `strconv.Atoi` of the text without a `+` at its end, `none` for its error.
abbrev Atoi : Type 0
Atoi = String → Option ℤ

abbrev is_supported : Option ℤ → Option ℤ → Option Bool
is_supported (some major) (some minor) =
    some
      (ltb_ℤ (pos 1) major || (leb_ℤ major (pos 1) && leb_ℤ (pos 1) major && leb_ℤ (pos 33) minor))
is_supported _ _ = none

-- `none` is an error.
unfoldable pub detect_in_place_resize : Atoi → Option Version → Option Bool
detect_in_place_resize atoi none = none
detect_in_place_resize atoi (some v) = is_supported (atoi v.major) (atoi v.minor)
