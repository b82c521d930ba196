-- ===== src/Py/Datetime.antt =====
-- `datetime.datetime`: a reading of the clock, an optional time zone, `isoformat`.
use secunda_test.Base.{
  ℕ, ◌+◌, ◌≡◌, refl, Bool, false, Option, none, some, [], ◌∷◌, ◌++◌, map, ◌==◌, if◌then◌else◌, Text,
  lit,
}
use secunda_test.Py.Numbers.{pad_onto}

pub record Instant : Type 0 where
  pub year : ℕ
  pub month : ℕ
  pub day : ℕ
  pub hour : ℕ
  pub minute : ℕ
  pub second : ℕ
  pub microsecond : ℕ

-- A distance from UTC, in whole minutes.
pub record Offset : Type 0 where
  pub west : Bool
  pub hours : ℕ
  pub minutes : ℕ

-- `tzinfo`; the inner option is what `tzinfo.utcoffset(value)` returns.
pub record Datetime : Type 0 where
  pub instant : Instant
  pub tzinfo : Option (Option Offset)

abbrev pub utc : Offset
utc = record { west = false; hours = 0; minutes = 0 }

-- `datetime.now(UTC)` where the clock reads `t`
abbrev pub in_utc : Instant → Datetime
in_utc t = record { instant = t; tzinfo = some (some utc) }

two_digits : ℕ → Text
two_digits n = map (λ d. 48 + d) (pad_onto 10 2 n [])

fraction : ℕ → Text
fraction us = if us == 0 then [] else b'.' ∷ map (λ d. 48 + d) (pad_onto 10 6 us [])

zone_text : Option (Option Offset) → Text
unfolding two_digits
zone_text none = []
zone_text (some none) = []
zone_text (some (some o)) =
    (if o.west then b'-' else b'+') ∷ (two_digits o.hours ++ b':' ∷ two_digits o.minutes)

-- `value.isoformat()`
unfoldable pub isoformat : Datetime → Text
unfolding two_digits fraction zone_text pad_onto
isoformat v =
    let t = v.instant in
    map (λ d. 48 + d) (pad_onto 10 4 t.year [])
    ++ b'-'
      ∷ (two_digits t.month
          ++ b'-'
            ∷ (two_digits t.day
                ++ b'T'
                  ∷ (two_digits t.hour
                      ++ b':'
                        ∷ (two_digits t.minute
                            ++ b':'
                              ∷ (two_digits t.second
                                  ++ (fraction t.microsecond ++ zone_text v.tzinfo))))))

abbrev pub afternoon : Instant
afternoon = record {
  year = 2026;
  month = 8;
  day = 15;
  hour = 15;
  minute = 59;
  second = 17;
  microsecond = 842180;
}

iso_afternoon : isoformat (in_utc afternoon) ≡ lit "2026-08-15T15:59:17.842180+00:00"
unfolding isoformat lit
iso_afternoon = refl
