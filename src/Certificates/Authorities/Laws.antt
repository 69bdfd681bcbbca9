-- ===== src/Certificates/Authorities/Laws.antt =====
-- A success without a reason has seen each authority ready.
use cluster_api_provider_hos.Prelude.{
  String, ◌≡◌, refl, sym, ap, ◌∙◌, subst, ◌≢◌, inl, inr, Bool, true, false, List, [], ◌∷◌, ◌==◌,
  string_eq, nat_eq, option_eq, if◌then◌else◌, ◌<>◌, Bool-cases, All, join_with,
}
use cluster_api_provider_hos.Prelude.Exec.{ok, Exec, wrapping}
use text.Mathlib.TextLemmas.{append-eq-nil_iff, append-ne-nil_of_right_ne-nil}
use cluster_api_provider_hos.Prelude.Every.{All-imp}
use cluster_api_provider_hos.Prelude.Succeeds.{bind-ok, wrapping-ok, pure-ok}
use cluster_api_provider_hos.Api.{Cluster, HostedControlPlane}
use cluster_api_provider_hos.Names
use cluster_api_provider_hos.Objects.{Identity}
use cluster_api_provider_hos.Certificates.{
  CertificateReconciler, Certificate, NamedSpec, Clients, Condition, is_ready, create_issuer,
  certificate_configuration, reconcile_certificate,
}
use cluster_api_provider_hos.Certificates.Authorities.{
  CaDefinition, ca_definitions, noted, gather, ca_spec, reconcile_ca_issuer, after_certificate,
  reconcile_ca, reconcile_authorities, reconcile_ca_certificates,
}

join_not_empty : (r : String) (rs : List String) → r ≢ "" → join_with "," (r ∷ rs) ≢ ""
unfolding join_with
join_not_empty r [] n h = n h
join_not_empty r (t ∷ ts) n h = n (append-eq-nil_iff.0 h).0

module _ {S A : Type 0} (step : A → Exec S String) where
  -- The step for `a` succeeded without a reason, in some state.
  abbrev Silent : A → Type 0
  Silent a = (u : S) × (v : S) × (step a u ≡ (ok "", v))

  split_noted :
      (reason : String) (reasons : List String)
      → join_with "," (noted reason reasons) ≡ ""
      → (reason ≡ "") × (join_with "," reasons ≡ "")
  split_noted reason reasons h = elim (Bool-cases (reason == "")) [
    | inl empty ↦ ((string_eq.beq_iff reason "").0 empty, rw empty at h)
    | inr given ↦ absurd (
        join_not_empty reason reasons (λ p. cc (given, (string_eq.beq_iff reason "").1 p))
          (rw given at h))
  ]

  gather-Silent :
      (xs : List A) (s t : S) (reasons : List String)
      → gather step xs s ≡ (ok reasons, t)
      → join_with "," reasons ≡ ""
      → All Silent xs
  unfolding gather
  gather-Silent [] s t reasons h e = tt
  gather-Silent (x ∷ xs) s t reasons h e =
      let (reason, first, h1) = bind-ok (step x) _ s t reasons h in
      let (rest, later, h2) = bind-ok (gather step xs) _ (step x s).1 t reasons h1 in
      let (same, _) = pure-ok (noted reason rest) _ t reasons h2 in
      let (silent, others) =
        split_noted reason rest (subst (λ l. join_with "," l ≡ "") (sym same) e) in
      (
        (s, (step x s).1, first ∙ (λ i. (ok (silent i), (step x s).1))),
        gather-Silent xs (step x s).1 (gather step xs (step x s).1).1 rest later others,
      )

module _ {Q : Type 0} {S : Type 0} (clients : Clients S) (cr : CertificateReconciler)
    (id : Identity) (hcp : HostedControlPlane Q) (cluster : Cluster) where
  -- The certificate of an authority was applied as its definition says and answered as ready, and so
  -- was the issuer behind it, with the Secret of the certificate that was answered.
  pub record Established (def : CaDefinition) : Type 0 where
    pub certificate : Certificate
    pub certified :
        (u v : S) × (clients.apply_certificate
            (certificate_configuration id hcp cluster
              (def.certificate_name cluster)
              (ca_spec clients cr id hcp cluster def))
            u
          ≡ (ok certificate, v))
    pub certificate_ready : is_ready certificate.conditions ≡ true
    pub issuer : List Condition
    pub issued :
        (u v : S) × (clients.apply_issuer
            (create_issuer id hcp cluster (def.issuer_name cluster) certificate.secret_name)
            u
          ≡ (ok issuer, v))
    pub issuer_ready : is_ready issuer ≡ true

  issuer-ready :
      (b : Bool) (reason : String) → reason ≢ "" → (if b then "" else reason) ≡ "" → b ≡ true
  issuer-ready true reason n h = refl
  issuer-ready false reason n h = absurd (n h)

  after_certificate-Established :
      (def : CaDefinition) (stored : Certificate) (ready : Bool) (u v s t : S)
      → clients.apply_certificate
          (certificate_configuration id hcp cluster
            (def.certificate_name cluster)
            (ca_spec clients cr id hcp cluster def))
          u
        ≡ (ok stored, v)
      → ready ≡ is_ready stored.conditions
      → after_certificate clients cr id hcp cluster def (stored, ready) s ≡ (ok "", t)
      → Established def
  unfolding after_certificate reconcile_ca_issuer
  after_certificate-Established def stored false u v s t applied is h =
      absurd (append-ne-nil_of_right_ne-nil def.kind (λ p. cc p) (pure-ok _ s t "" h).0)
  after_certificate-Established def stored true u v s t applied is h =
      let apply =
        clients.apply_issuer
          (create_issuer id hcp cluster (def.issuer_name cluster) stored.secret_name) in
      let (issuer, patched, h1) = bind-ok (wrapping _ apply) _ s t "" h in
      let w : S = (apply s).1 in
      record {
        certificate = stored;
        certified = (u, v, applied);
        certificate_ready = sym is;
        issuer = issuer;
        issued = (s, w, wrapping-ok _ apply s w issuer patched);
        issuer_ready =
            issuer-ready (is_ready issuer) (def.kind <> " issuer not ready")
              (append-ne-nil_of_right_ne-nil def.kind (λ p. cc p))
              (pure-ok (if is_ready issuer then "" else def.kind <> " issuer not ready") w t ""
                h1).0;
      }

  certificate-ok :
      (name : String) (spec : NamedSpec) (s t : S) (stored : Certificate) (ready : Bool)
      → reconcile_certificate id hcp cluster clients name spec s ≡ (ok (stored, ready), t)
      → (v : S) × (clients.apply_certificate (certificate_configuration id hcp cluster name spec) s
          ≡ (ok stored, v))
        × (ready ≡ is_ready stored.conditions)
  unfolding reconcile_certificate
  certificate-ok name spec s t stored ready h =
      let apply = clients.apply_certificate (certificate_configuration id hcp cluster name spec) in
      let (answered, patched, h1) = bind-ok (wrapping _ apply) _ s t (stored, ready) h in
      let v : S = (apply s).1 in
      let (same, _) = pure-ok (answered, is_ready answered.conditions) v t (stored, ready) h1 in
      let found : answered ≡ stored = ap (λ x. x.0) same in
      (
        v,
        wrapping-ok _ apply s v answered patched ∙ (λ i. (ok (found i), v)),
        sym (ap (λ x. x.1) same) ∙ ap (λ c. is_ready c.conditions) found,
      )

  reconcile_ca-Established :
      (def : CaDefinition) → Silent (reconcile_ca clients cr id hcp cluster) def → Established def
  unfolding reconcile_ca
  reconcile_ca-Established def (s, t, h) =
      let apply =
        reconcile_certificate id hcp cluster clients (def.certificate_name cluster)
          (ca_spec clients cr id hcp cluster def) in
      let ((stored, ready), applied, h1) =
        bind-ok (wrapping _ apply) (after_certificate clients cr id hcp cluster def) s t "" h in
      let w : S = (apply s).1 in
      let (v, certified, is) =
        certificate-ok (def.certificate_name cluster) (ca_spec clients cr id hcp cluster def) s w
          stored ready (wrapping-ok _ apply s w (stored, ready) applied) in
      after_certificate-Established def stored ready s v w t certified is h1

  -- Where the authorities are reconciled without an error and without a reason, the self-signed
  -- issuer was applied and answered as ready, and each of the three authorities is established.
  pub reconcile_ca_certificates-Established :
      (s t : S)
      → reconcile_ca_certificates clients cr id hcp cluster s ≡ (ok "", t)
      → ((root : List Condition) × (u v : S) × (clients.apply_issuer
              (create_issuer id hcp cluster (Names.get_root_issuer_name cluster) "")
              u
            ≡ (ok root, v))
          × (is_ready root ≡ true))
        × All Established ca_definitions
  unfolding reconcile_ca_certificates reconcile_authorities
  reconcile_ca_certificates-Established s t h =
      let apply =
        clients.apply_issuer
          (create_issuer id hcp cluster (Names.get_root_issuer_name cluster) "") in
      let (root, patched, h1) = bind-ok (wrapping _ apply) _ s t "" h in
      let w : S = (apply s).1 in
      elim (Bool-cases (is_ready root)) [
        | inl ready ↦
            let gathered = gather (reconcile_ca clients cr id hcp cluster) ca_definitions in
            let (reasons, all, h2) = bind-ok gathered _ w t "" (rw ready at h1) in
            let (joined, _) = pure-ok (join_with "," reasons) (gathered w).1 t "" h2 in
            let silent =
              gather-Silent (reconcile_ca clients cr id hcp cluster) ca_definitions w (gathered w).1
                reasons all joined in
            (
              (root, s, w, wrapping-ok _ apply s w root patched, ready),
              All-imp (Silent (reconcile_ca clients cr id hcp cluster)) Established
                  reconcile_ca-Established ca_definitions silent,
            )
        | inr waiting ↦ absurd (cc ((pure-ok "root issuer not ready" w t "" (rw waiting at h1)).0))
      ]
