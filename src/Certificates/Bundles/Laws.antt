-- ===== src/Certificates/Bundles/Laws.antt =====
-- A bundle has the current certificate, and the one before it through a rotation.
use cluster_api_provider_hos.Prelude.{
  String, ◌≡◌, refl, ap, ◌∙◌, inl, inr, true, false, Option, none, some, List, [], ◌∷◌, ◌==◌,
  string_eq, nat_eq, option_eq, if◌then◌else◌, Bool-cases,
}
use cluster_api_provider_hos.Prelude.Sorting.{lookup}
use cluster_api_provider_hos.Prelude.Exec.{Error, Result, ok, err, Exec, attempt, ◌>>=◌}
use cluster_api_provider_hos.Prelude.{beq_refl}
use cluster_api_provider_hos.Certificates.{SecretApply}
use cluster_api_provider_hos.Api.{Cluster, HostedControlPlane}
use cluster_api_provider_hos.Objects.{Identity}
use cluster_api_provider_hos.Certificates.{Clients}
use cluster_api_provider_hos.Certificates.Bundles.{
  bundle_secret, write_bundle, with_bundle, with_ca_secret, reconcile_ca_bundle, Data, value_of,
  bundle_data, next_bundle, ca_cert_name,
}

-- What is not written stays.
abbrev pub written_over : Option Data → Option Data → Option Data
written_over none stored = stored
written_over (some written) stored = some written

-- The certificate that was current before the present one: the last different one, if any.
unfoldable pub previous : List String → String
previous [] = ""
previous (current ∷ []) = ""
previous (current ∷ last ∷ earlier) =
    let rest = previous (last ∷ earlier) in if last == current then rest else last

read_again :
    (last current old : String)
    → written_over (next_bundle current (some (bundle_data last old))) (some (bundle_data last old))
      ≡ some (bundle_data current (if last == current then old else last))
unfolding next_bundle bundle_data lookup
read_again last current old = elim (Bool-cases (last == current)) [
  | inl same ↦ rw same (rw ((string_eq.beq_iff last current).0 same) refl)
  | inr other ↦ rw other refl
]

first : (current : String) → next_bundle current none ≡ some (bundle_data current "")
unfolding next_bundle
first current = refl

-- The bundle for the certificates that were seen; the current one stands first.
abbrev pub bundle_of : List String → Option Data
bundle_of [] = none
bundle_of (current ∷ earlier) = some (bundle_data current (previous (current ∷ earlier)))

seen :
    (current : String) (earlier : List String)
    → written_over (next_bundle current (bundle_of earlier)) (bundle_of earlier)
      ≡ bundle_of (current ∷ earlier)
unfolding previous
seen current [] = ap (λ b. written_over b none) (first current)
seen current (last ∷ earlier) = read_again last current (previous (last ∷ earlier))

-- What the Secret of an authority adds to the certificates that were seen: nothing where it is not
-- there, or has no certificate yet.
unfoldable pub with_reading : Option Data → List String → List String
with_reading none earlier = earlier
with_reading (some secret) earlier =
    let current = value_of ca_cert_name secret in
    if current == "" then earlier else current ∷ earlier

unfoldable pub certificates : List (Option Data) → List String
certificates [] = []
certificates (reading ∷ earlier) = with_reading reading (certificates earlier)

-- The reason why a bundle is not ready: empty where it is.
unfoldable pub reason : Option Data → String
reason none = "CA secret not yet available"
reason (some secret) =
    if value_of ca_cert_name secret == "" then "CA secret not yet populated" else ""

-- The Secrets of a namespace behind the clients: `Get` finds what is stored and changes nothing,
-- `Apply` stores under the name. `issue` is what others do to one Secret.
pub record SecretStore {S : Type 0} (clients : Clients S) : Type 0 where
  pub secrets : S → String → Option Data
  pub found :
      (name : String) (s : S) (values : Data)
      → secrets s name ≡ some values
      → (t : S) × (clients.get_secret name s ≡ (ok values, t))
        × ((m : String) → secrets t m ≡ secrets s m)
  pub missing :
      (name : String) (s : S)
      → secrets s name ≡ none
      → (e : Error) × (t : S) × (clients.get_secret name s ≡ (err e, t))
        × (clients.errors.is_not_found e ≡ true)
        × ((m : String) → secrets t m ≡ secrets s m)
  pub applied :
      (secret : SecretApply) (s : S)
      → (t : S) × (clients.apply_secret secret s ≡ (ok tt, t))
        × ((m : String)
            → secrets t m ≡ (if secret.name == m then some secret.values else secrets s m))
  pub issue : String → Option Data → S → S
  pub issued :
      (name : String) (values : Option Data) (s : S) (m : String)
      → secrets (issue name values s) m ≡ (if name == m then values else secrets s m)

module _ {Q : Type 0} {S : Type 0} (clients : Clients S) (store : SecretStore clients)
    (id : Identity) (hcp : HostedControlPlane Q) (cluster : Cluster)
    (ca_name bundle_name : String) where
  open store use {secrets, found, missing, applied, issue, issued}

  -- All Secrets but the bundle are the same.
  abbrev Apart : S → S → Type 0
  Apart s t = (m : String) → (bundle_name == m) ≡ false → secrets t m ≡ secrets s m

  write_bundle-stored :
      (bundle : Option Data) (s : S)
      → (t : S) × (write_bundle clients id hcp cluster bundle_name bundle s ≡ (ok "", t))
        × (secrets t bundle_name ≡ written_over bundle (secrets s bundle_name))
        × Apart s t
  unfolding write_bundle ◌>>=◌
  write_bundle-stored none s = (s, refl, refl, λ m other. refl)
  write_bundle-stored (some values) s =
      let (t, done, stored) = applied (bundle_secret clients id hcp cluster bundle_name values) s in
      (
        t,
        rw done refl,
        stored bundle_name ∙ rw (beq_refl bundle_name) refl,
        λ m other. stored m ∙ rw other refl,
      )

  -- What `Get` says of a Secret: it is there, or it was not found.
  abbrev Reads : Result Data → Option Data → Type 0
  Reads r (some values) = r ≡ ok values
  Reads r none = (e : Error) × (r ≡ err e) × (clients.errors.is_not_found e ≡ true)

  read :
      (name : String) (stored : Option Data) (s : S)
      → secrets s name ≡ stored
      → (r : Result Data) × (t : S) × (clients.get_secret name s ≡ (r, t))
        × Reads r stored
        × ((m : String) → secrets t m ≡ secrets s m)
  read name (some values) s h =
      let (t, got, same) = found name s values h in (_, t, got, refl, same)
  read name none s h =
      let (e, t, got, gone, same) = missing name s h in (err e, t, got, (e, refl, gone), same)

  with_bundle-next_bundle :
      (current : String) (bundle : Option Data) (r : Result Data) (s : S)
      → Reads r bundle
      → with_bundle clients id hcp cluster bundle_name current r s
        ≡ write_bundle clients id hcp cluster bundle_name (next_bundle current bundle) s
  unfolding with_bundle
  with_bundle-next_bundle current (some values) r s read = rw read refl
  with_bundle-next_bundle current none r s (e, failed, gone) = rw failed (rw gone refl)

  -- Where the current certificate was read.
  read_current :
      (current : String) (history : List String) (s : S)
      → secrets s bundle_name ≡ bundle_of history
      → (t : S) × ((attempt (clients.get_secret bundle_name)
              >>= with_bundle clients id hcp cluster bundle_name current)
            s
          ≡ (ok "", t))
        × (secrets t bundle_name ≡ bundle_of (current ∷ history))
        × Apart s t
  unfolding ◌>>=◌
  read_current current history s stored =
      let (r, u, got, reads, same) = read bundle_name (bundle_of history) s stored in
      let (t, done, now, apart) = write_bundle-stored (next_bundle current (bundle_of history)) u in
      (
        t,
        rw got (with_bundle-next_bundle current (bundle_of history) r u reads ∙ done),
        now
            ∙ ap (written_over (next_bundle current (bundle_of history)))
                (same bundle_name ∙ stored)
            ∙ seen current history,
        λ m other. apart m other ∙ same m,
      )

  reconcile_ca_bundle-once :
      (reading : Option Data) (history : List String) (s : S)
      → secrets s ca_name ≡ reading
      → secrets s bundle_name ≡ bundle_of history
      → (t : S) × (reconcile_ca_bundle clients id hcp cluster ca_name bundle_name s
          ≡ (ok (reason reading), t))
        × (secrets t bundle_name ≡ bundle_of (with_reading reading history))
        × Apart s t
  unfolding reconcile_ca_bundle with_ca_secret with_reading reason ◌>>=◌
  reconcile_ca_bundle-once none history s is_read stored =
      let (e, u, got, gone, same) = missing ca_name s is_read in
      (u, rw got (rw gone refl), same bundle_name ∙ stored, λ m other. same m)
  reconcile_ca_bundle-once (some secret) history s is_read stored =
      let (u, got, same) = found ca_name s secret is_read in
      elim (Bool-cases (value_of ca_cert_name secret == "")) [
        | inl empty ↦ (
          u,
          rw got (rw empty refl),
          same bundle_name ∙ stored ∙ rw empty refl,
          λ m other. same m,
        )
        | inr present ↦
            let (t, done, now, apart) =
              read_current (value_of ca_cert_name secret) history u (same bundle_name ∙ stored) in
            (t, rw got (rw present done), now ∙ rw present refl, λ m other. apart m other ∙ same m)
      ]

  -- The Secret of the authority has each reading in turn, the last one first, and the bundle is
  -- reconciled behind each.
  unfoldable pub reconciled : List (Option Data) → Exec S String
  reconciled [] s = (ok "", s)
  reconciled (reading ∷ earlier) s =
      reconcile_ca_bundle clients id hcp cluster ca_name bundle_name
        (issue ca_name reading (reconciled earlier s).1)

  issued-apart :
      (reading : Option Data) (s : S) (m : String)
      → (ca_name == m) ≡ false
      → secrets (issue ca_name reading s) m ≡ secrets s m
  issued-apart reading s m other = issued ca_name reading s m ∙ rw other refl

  reconciled-next :
      (reading : Option Data) (history : List String) (s : S)
      → (ca_name == bundle_name) ≡ false
      → secrets s bundle_name ≡ bundle_of history
      → (t : S) × (reconcile_ca_bundle clients id hcp cluster ca_name bundle_name
            (issue ca_name reading s)
          ≡ (ok (reason reading), t))
        × (secrets t bundle_name ≡ bundle_of (with_reading reading history))
        × ((m : String)
            → (bundle_name == m) ≡ false
            → (ca_name == m) ≡ false
            → secrets t m ≡ secrets s m)
  reconciled-next reading history s differ stored =
      let (t, done, now, apart) =
        reconcile_ca_bundle-once reading history (issue ca_name reading s)
          (issued ca_name reading s ca_name ∙ rw (beq_refl ca_name) refl)
          (issued-apart reading s bundle_name differ ∙ stored) in
      (t, done, now, λ m other not_ca. apart m other ∙ issued-apart reading s m not_ca)

  reconciled-history :
      (readings : List (Option Data)) (s : S)
      → (ca_name == bundle_name) ≡ false
      → secrets s bundle_name ≡ none
      → (secrets (reconciled readings s).1 bundle_name ≡ bundle_of (certificates readings))
        × ((m : String)
            → (bundle_name == m) ≡ false
            → (ca_name == m) ≡ false
            → secrets (reconciled readings s).1 m ≡ secrets s m)
  unfolding reconciled certificates
  reconciled-history [] s differ absent = (absent, λ m other not_ca. refl)
  reconciled-history (reading ∷ earlier) s differ absent =
      let (stored, same) = reconciled-history earlier s differ absent in
      let (t, done, now, apart) =
        reconciled-next reading (certificates earlier) (reconciled earlier s).1 differ stored in
      rw done (now, λ m other not_ca. apart m other not_ca ∙ same m other not_ca)

  -- For clients that read and write a store and do not fail, where the bundle is not there at first
  -- and is not the authority's own Secret: whatever others do to the authority's Secret,
  -- `reconcileCABundle` behind each change succeeds, and its reason is empty exactly where that
  -- Secret then has a certificate; and the bundle has, of the certificates that were there to be
  -- read, the last one as the current and the last different one as the old certificate, and trusts
  -- just these two. There is no bundle before the first certificate, and no other Secret changes.
  pub reconcile_ca_bundle-history :
      (reading : Option Data) (earlier : List (Option Data)) (s : S)
      → (ca_name == bundle_name) ≡ false
      → secrets s bundle_name ≡ none
      → (t : S) × (reconciled (reading ∷ earlier) s ≡ (ok (reason reading), t))
        × (secrets t bundle_name ≡ bundle_of (certificates (reading ∷ earlier)))
        × ((m : String)
            → (bundle_name == m) ≡ false
            → (ca_name == m) ≡ false
            → secrets t m ≡ secrets s m)
  unfolding reconciled certificates
  reconcile_ca_bundle-history reading earlier s differ absent =
      let (stored, same) = reconciled-history earlier s differ absent in
      let (t, done, now, apart) =
        reconciled-next reading (certificates earlier) (reconciled earlier s).1 differ stored in
      (t, done, now, λ m other not_ca. apart m other not_ca ∙ same m other not_ca)
