-- ===== src/Etcd/Schedule.antt =====
-- pkg/reconcilers/etcd_cluster/backup_schedule.go: the cron expression of the backups.
pub mod Laws
use Prim.Native.Char.{code}
use Prim.Native.Nat.{bit_xor}
use cluster_api_provider_hos.Prelude.{
  ℕ, ◌+◌, ◌*◌, ◌/◌, ◌%◌, ◌<◌, String, List, [], ◌∷◌, arith, ◌==◌, string_eq, nat_eq, Eq, option_eq,
  if◌then◌else◌, ◌<>◌, decimal,
}
use cluster_api_provider_hos.Prelude.Exec.{Result, wrap_result, ◌>>=◌, ◌>>◌}
use cluster_api_provider_hos.Etcd.Calls.{Schedule}

-- The bytes of an ASCII text.
abbrev pub codes : String → List ℕ
codes String.[] = []
codes (String.◌∷◌ c s) = code c ∷ codes s

abbrev pub u32 : ℕ → ℕ
u32 n = n % 4294967296

-- `fnv.New32a` of Go's hash/fnv: 32-bit FNV-1a.
unfoldable pub fnv32a : ℕ → List ℕ → ℕ
fnv32a hash [] = hash
fnv32a hash (b ∷ bs) = fnv32a (u32 (bit_xor hash b * 16777619)) bs

abbrev pub fnv_offset : ℕ
fnv_offset = 2166136261

-- The minute and the hour of the daily backup, of the sum that `dailyScheduleFor` computes.
pub record Daily : Type 0 where
  pub minute : ℕ
  pub hour : ℕ

unfoldable pub daily_at : ℕ → Daily
daily_at sum =
    let offset = sum % 480 in
    let total_minutes = 20 * 60 + offset in
    record { minute = total_minutes % 60; hour = (total_minutes / 60) % 24 }

unfoldable pub daily_schedule_for : String → String → String
unfolding daily_at fnv32a
daily_schedule_for namespace name =
    let at = daily_at (fnv32a fnv_offset (codes (namespace <> "/" <> name))) in
    decimal at.minute <> " " <> decimal at.hour <> " * * *"

-- `resolveBackupSchedule`; the parser is the one of the cron library.
unfoldable pub resolve_backup_schedule :
    (String → Result Schedule) → String → String → String → Result Schedule
unfolding daily_schedule_for
resolve_backup_schedule parse_standard schedule namespace name =
    wrap_result "failed to parse schedule" (
      parse_standard (if schedule == "@daily" then daily_schedule_for namespace name else schedule))
