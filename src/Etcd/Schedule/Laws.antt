-- ===== src/Etcd/Schedule/Laws.antt =====
-- The time of the daily backup.
use cluster_api_provider_hos.Prelude.{
  ℕ, ◌+◌, ◌*◌, ◌%◌, ◌≤◌, ◌<◌, ◌≡◌, ◌⊎◌, arith, string_eq, nat_eq, option_eq,
}
use cluster_api_provider_hos.Etcd.Schedule.{Daily, daily_at}

-- The minutes of the backup behind 20:00.
abbrev pub minutes_behind : Daily → ℕ
minutes_behind d = (d.hour * 60 + d.minute + 240) % 1440

-- Whatever the hash, the backup starts between 20:00 and 03:59, at the minute of that window that
-- is the hash modulo 480: every minute of the window is used, and hashes with different remainders
-- get different times.
pub daily_at-window :
    (sum : ℕ)
    → let d = daily_at sum in
      (d.minute < 60)
      × ((20 ≤ d.hour) × (d.hour < 24) ⊎ (d.hour < 4))
      × (minutes_behind d ≡ sum % 480)
unfolding daily_at
daily_at-window sum = (omega arith, ground arith, omega arith)
