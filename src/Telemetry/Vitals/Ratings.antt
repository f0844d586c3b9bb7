-- ===== src/Telemetry/Vitals/Ratings.antt =====
-- Ratings and values.
use learn_pg.Prelude.{ℕ, ◌≤◌, ◌<◌, ◌≡◌, ◌↔◌, arith}
use learn_pg.Telemetry.Vitals.{
  VitalName, Rating, good, needs_improvement, poor, thresholds, rate, lcp, fid, cls, inp, ttfb,
}

abbrev pub badness : Rating → ℕ
badness good = 0
badness needs_improvement = 1
badness poor = 2

-- A larger value of the same vital never has a better rating; the values up to the first threshold, and
-- no others, are good; those above the second, and no others, are poor.
pub rate_mono :
    (name : VitalName) (value larger : ℕ)
    → value ≤ larger
    → (badness (rate name value) ≤ badness (rate name larger))
      × ((rate name value ≡ good) ↔ (value ≤ (thresholds name).0))
      × ((rate name value ≡ poor) ↔ ((thresholds name).1 < value))
unfolding rate
rate_mono lcp value larger h = ground arith
rate_mono fid value larger h = ground arith
rate_mono cls value larger h = ground arith
rate_mono inp value larger h = ground arith
rate_mono ttfb value larger h = ground arith
