-- ===== src/Prelude/Iso.antt =====
-- `Date.prototype.toISOString`, for times from 1970 to the year 9999.
use Prim.Native.Nat.{ℕ, ◌+◌, ◌-◌, ◌*◌, ◌/◌, ◌%◌}
use Prim.Native.String.{String, ◌++◌}
use mathlib.Core.Path.{◌≡◌, refl}
use cliqhub_core.Prelude.Tests.{if◌then◌else◌, ltb, leb}
use cliqhub_core.Prelude.Decimal.{padded}

pub record Civil : Type 0 where
  pub year : ℕ
  pub month : ℕ
  pub day : ℕ

-- The day of an era of 400 years that begins in March, by its year of the era.
civil_of : ℕ → ℕ → ℕ → Civil
civil_of era doe yoe =
    let doy = doe - (365 * yoe + yoe / 4 - yoe / 100) in
    let mp = (5 * doy + 2) / 153 in
    let month = if ltb mp 10 then mp + 3 else mp - 9 in
    record {
      year = yoe + era * 400 + (if leb month 2 then 1 else 0);
      month = month;
      day = doy - (153 * mp + 2) / 5 + 1;
    }

-- The date of a count of days since 1970-01-01.
civil_from_days : ℕ → Civil
unfolding civil_of
civil_from_days days =
    let z = days + 719468 in
    let doe = z % 146097 in
    civil_of (z / 146097) doe ((doe - doe / 1460 + doe / 36524 - doe / 146096) / 365)

iso_of : Civil → ℕ → String
unfolding padded
iso_of c ms =
    padded 4 c.year
    ++ ("-"
        ++ (padded 2 c.month
            ++ ("-"
                ++ (padded 2 c.day
                    ++ ("T"
                        ++ (padded 2 (ms / 3600000)
                            ++ (":"
                                ++ (padded 2 (ms / 60000 % 60)
                                    ++ (":"
                                        ++ (padded 2 (ms / 1000 % 60)
                                            ++ ("." ++ (padded 3 (ms % 1000) ++ "Z"))))))))))))

unfoldable pub to_iso_string : ℕ → String
unfolding civil_from_days iso_of
to_iso_string t = iso_of (civil_from_days (t / 86400000)) (t % 86400000)

to_iso_string_example : to_iso_string 1709210096789 ≡ "2024-02-29T12:34:56.789Z"
unfolding to_iso_string
to_iso_string_example = refl
