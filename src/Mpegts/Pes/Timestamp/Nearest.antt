-- ===== src/Mpegts/Pes/Timestamp/Nearest.antt =====
-- mpegts/reader.go: where `extendTimestamp` puts a 33-bit timestamp.
use format.Prelude.{ℕ, ◌+◌, ◌-◌, ◌*◌, ◌^◌, ◌/◌, ◌<◌, ◌≤◌, ◌≡◌, arith}
use format.Prelude.Int.{pos, pos_part, neg_part}
use format.Mpegts.Pes.Timestamp.{timestamp_wrap, masked, extend_timestamp}

-- For a reference from 0 on and below 2^63 - 2^34, and a timestamp of 33 bits, the extended timestamp has
-- those 33 bits, is at most half of a wrap away from the reference, so that none is nearer, and is
-- below 2^63, so that it is an int64.
pub extend_timestamp_nearest :
    (r ts33 : ℕ)
    → r < 2 ^ 63 - 2 * timestamp_wrap
    → ts33 < timestamp_wrap
    → let x = extend_timestamp (pos r) ts33 in
      (masked x ≡ ts33)
      × (pos_part x ≤ r + neg_part x + timestamp_wrap / 2)
      × (r + neg_part x ≤ pos_part x + timestamp_wrap / 2)
      × (pos_part x < 2 ^ 63)
unfolding masked extend_timestamp
extend_timestamp_nearest r ts33 small h = ground arith

-- A time from 0 on that is less than half of a wrap away from the reference is recovered exactly from its
-- 33 bits.
pub extend_timestamp-masked :
    (r d : ℕ)
    → d < r + timestamp_wrap / 2
    → r < d + timestamp_wrap / 2
    → extend_timestamp (pos r) (masked (pos d)) ≡ pos d
unfolding masked extend_timestamp
extend_timestamp-masked r d h g = ground arith
