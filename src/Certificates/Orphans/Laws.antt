-- ===== src/Certificates/Orphans/Laws.antt =====
-- The cleanup deletes nothing that is wanted.
use cluster_api_provider_hos.Prelude.{
  String, ◌≡◌, inl, inr, false, List, [], ◌∷◌, string_eq, nat_eq, option_eq, Bool-cases,
}
use cluster_api_provider_hos.Prelude.Exec.{Result, ok, err, Exec, continue, ◌>>=◌}
use cluster_api_provider_hos.Prelude.Exec.{attempt}
use cluster_api_provider_hos.Api.{Cluster}
use cluster_api_provider_hos.Reconcilers.{delete_if_found, after_delete}
use cluster_api_provider_hos.Certificates.{Clients}
use cluster_api_provider_hos.Certificates.Orphans.{
  is_desired, delete_orphans, cleanup_orphaned_certificates,
}

module _ {S : Type 0} (P : S → Type 0) where
  -- An action that keeps `P`, whether it fails or not.
  abbrev pub Keeps : {A : Type 0} → Exec S A → Type 0
  Keeps x = (s : S) → P s → P (x s).1

  bind-Keeps :
      {A B : Type 0} (x : Exec S A) (f : A → Exec S B)
      → Keeps x
      → ((a : A) → Keeps (f a))
      → Keeps (x >>= f)
  unfolding ◌>>=◌
  bind-Keeps x f keeps rest s h = after (x s).0 (x s).1 (keeps s h)
    where
      after : (r : Result _) (t : S) → P t → P (continue r f t).1
      after (ok a) t p = rest a t p
      after (err e) t p = p

module _ {S : Type 0} (clients : Clients S) (P : S → Type 0) where
  after_delete-Keeps :
      (message : String) (r : Result (Unit {0})) → Keeps P (after_delete clients.errors message r)
  unfolding after_delete
  after_delete-Keeps message (ok _) s p = p
  after_delete-Keeps message (err e) s p = elim (Bool-cases (clients.errors.is_not_found e)) [
    | inl missing ↦ rw missing p
    | inr other ↦ rw other p
  ]

  delete-Keeps :
      (message name : String)
      → Keeps P (clients.delete_certificate name)
      → Keeps P (delete_if_found clients.errors message (clients.delete_certificate name))
  unfolding delete_if_found
  delete-Keeps message name keeps =
      bind-Keeps P (attempt (clients.delete_certificate name)) _ keeps (after_delete-Keeps message)

  delete_orphans-Keeps :
      (desired names : List String)
      → ((name : String)
          → is_desired desired name ≡ false
          → Keeps P (clients.delete_certificate name))
      → Keeps P (delete_orphans clients desired names)
  unfolding delete_orphans
  delete_orphans-Keeps desired [] harmless s p = p
  delete_orphans-Keeps desired (name ∷ names) harmless s p =
      elim (Bool-cases (is_desired desired name)) [
        | inl wanted ↦ rw wanted (delete_orphans-Keeps desired names harmless s p)
        | inr orphan ↦ rw orphan (
            bind-Keeps P _ _ (delete-Keeps _ name (harmless name orphan))
              (λ _. delete_orphans-Keeps desired names harmless) s p)
      ]

  -- What the listing keeps, and the deletion of each certificate whose name is not wanted, the
  -- cleanup keeps too, also where it fails: no certificate with a wanted name is deleted.
  pub cleanup_orphaned_certificates-Keeps :
      (cluster : Cluster) (desired : List String)
      → ((labels : List (String × String)) → Keeps P (clients.list_certificates labels))
      → ((name : String)
          → is_desired desired name ≡ false
          → Keeps P (clients.delete_certificate name))
      → Keeps P (cleanup_orphaned_certificates clients cluster desired)
  unfolding cleanup_orphaned_certificates
  cleanup_orphaned_certificates-Keeps cluster desired listing harmless =
      bind-Keeps P _ _ (listing _) (λ names. delete_orphans-Keeps desired names harmless)
