-- ===== src/Etcd/Container/Laws.antt =====
-- The command line of etcd: the arguments that a user cannot change, and the quota of the database.
use cluster_api_provider_hos.Prelude.{
  ℕ, ◌+◌, ◌*◌, ◌/◌, ◌≤◌, ◌<◌, ◌<>◌, String, ◌≡◌, some, List, arith, string_eq, nat_eq, option_eq,
}
use cluster_api_provider_hos.Prelude.Int.{pos}
use cluster_api_provider_hos.Prelude.Sorting.{lookup}
use cluster_api_provider_hos.Etcd.Container.{storage_quota}

-- For a volume below a ninetieth of the largest `int64`, the quota of the etcd database is exactly
-- nine tenths of the volume, rounded down, so that it always fits: no product overflows.
pub storage_quota-bounds :
    (n : ℕ)
    → n * 90 < 9223372036854775808
    → (k : ℕ) × (storage_quota (pos n) ≡ pos k) × (k * 100 ≤ n * 90) × (n * 90 < k * 100 + 100)
unfolding storage_quota
storage_quota-bounds n h = ((n * 90) / 100, ground (arith, h), omega arith, omega arith)

-- An entry on the command line.
abbrev pub flag : String × String → String
flag (key, value) = "--" <> key <> "=" <> value

-- The entries of a command line that no user argument changes.
pub record Fixed (entries : List (String × String)) : Type 0 where
  pub clients : lookup "client-cert-auth" entries ≡ some "true"
  pub peers : lookup "peer-client-cert-auth" entries ≡ some "true"
  pub trusted : lookup "trusted-ca-file" entries ≡ some "/etc/etcd/ca.crt"
  pub peers_trusted : lookup "peer-trusted-ca-file" entries ≡ some "/etc/etcd/ca.crt"
