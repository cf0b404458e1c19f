-- ===== src/Values/Time.antt =====
-- Python's `datetime`, as far as the domain reads it: its zone and its instant.
use qarunner.Prelude.{Bool, false, leb, ltb, pos, ℕ, ℤ, ◌+◌, ◌==◌}

-- `utcoffset()` in microseconds, if there is a `tzinfo`.
pub data Zone : Type 0 where
  naive : Zone
  aware : ℤ → Zone

-- `instant` counts microseconds of UTC; the comparisons of aware times compare it.
pub record DateTime : Type 0 where
  pub zone : Zone
  pub instant : ℕ

-- `value.tzinfo is None or value.utcoffset() != timedelta(0)`, negated.
abbrev pub zone_is_utc : Zone → Bool
zone_is_utc (aware (pos n)) = n == 0
zone_is_utc _ = false

abbrev pub is_utc : DateTime → Bool
is_utc t = zone_is_utc t.zone

abbrev pub utc : ℕ → DateTime
utc n = record { zone = aware (pos 0); instant = n }

-- `<`, `<=` and `==` on aware times.
abbrev pub before : DateTime → DateTime → Bool
before s t = ltb s.instant t.instant

abbrev pub at_most : DateTime → DateTime → Bool
at_most s t = leb s.instant t.instant

abbrev pub same_time : DateTime → DateTime → Bool
same_time s t = s.instant == t.instant

-- `t + timedelta(microseconds=n)` for a delta that is not negative.
abbrev pub plus : DateTime → ℕ → DateTime
plus t n = record t { instant = t.instant + n }
