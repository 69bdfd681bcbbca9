-- ===== src/Checksum.antt =====
-- pkg/operator/util/checksum.go: the checksums of the Secrets and ConfigMaps that a pod mounts, as
-- annotations of its template. The hash is a function of the text that is written to it.
pub mod Laws
use cluster_api_provider_hos.Prelude.{
  ℕ, ◌/◌, ◌<◌, String, Option, none, some, List, [], ◌∷◌, map, arith, ◌==◌, string_eq, nat_eq, Eq,
  option_eq, if◌then◌else◌, ◌<>◌, is_empty,
}
use cluster_api_provider_hos.Prelude.Exec.{Exec, pure, wrapping, ◌>>=◌, ◌>>◌}
use cluster_api_provider_hos.Prelude.{flat_map}
use cluster_api_provider_hos.Prelude.Sorting.{assign, sort_by_key, sort_texts}
use cluster_api_provider_hos.Objects.{KeyedSource, Volume, VolumeProjection, PodTemplateSpec}

abbrev pub Data : Type 0
Data = List (String × String)

-- What is written to the hash of one map, and to that of all.
unfoldable pub written : Data → String
written [] = ""
written (e ∷ es) = e.0 <> e.1 <> written es

unfoldable pub concat : List String → String
concat [] = ""
concat (s ∷ ss) = s <> concat ss

module _ (md5_hex : String → String) where
  unfoldable pub map_checksum : Data → String
  unfolding written
  map_checksum data_map = md5_hex (written (sort_by_key data_map))

  unfoldable pub calculate_checksum : List Data → String
  unfolding map_checksum concat
  calculate_checksum data_maps =
      let checksums = map map_checksum data_maps in
      if is_empty checksums then "" else md5_hex (concat (sort_texts checksums))

abbrev pub present : String → List String
present value = if value == "" then [] else value ∷ []

unfoldable pub extract_names :
    (Volume → String) → (VolumeProjection → String) → List Volume → List String
extract_names direct_access projected_access volumes =
    flat_map
      (λ (v : Volume).
        if direct_access v == ""
        then elim v.projected [
          | none ↦ []
          | some sources ↦ flat_map (λ source. present (projected_access source)) sources
        ]
        else direct_access v ∷ [])
      volumes

abbrev pub source_name : Option KeyedSource → String
source_name none = ""
source_name (some source) = source.name

unfoldable pub extract_secret_names : List Volume → List String
unfolding extract_names
extract_secret_names =
    extract_names (λ (v : Volume). source_name v.secret)
      (λ (p : VolumeProjection). source_name p.secret)

unfoldable pub extract_config_map_names : List Volume → List String
unfolding extract_names
extract_config_map_names =
    extract_names (λ (v : Volume). source_name v.config_map)
      (λ (p : VolumeProjection). source_name p.config_map)

-- `WithAnnotations` of a checksum that is not empty.
abbrev pub annotated : {R : Type 0} → String → PodTemplateSpec R → String → PodTemplateSpec R
annotated key template checksum =
    if checksum == ""
    then template
    else record template { annotations = assign template.annotations ((key, checksum) ∷ []) }

unfoldable pub annotate :
    {S R : Type 0}
    → String
    → String
    → (List String → Exec S String)
    → List String
    → PodTemplateSpec R
    → Exec S (PodTemplateSpec R)
annotate key message calculate [] template = pure template
annotate key message calculate (name ∷ names) template = do
  checksum ← wrapping message (calculate (name ∷ names))
  pure (annotated key template checksum)

module _ {S : Type 0} (md5_hex : String → String) where
  -- The loop over the names: each object is fetched, the first failure ends it.
  unfoldable pub fetch_all : String → (String → Exec S Data) → List String → Exec S (List Data)
  fetch_all message get [] = pure []
  fetch_all message get (name ∷ names) = do
    data_map ← wrapping message (get name)
    rest ← fetch_all message get names
    pure (data_map ∷ rest)

  unfoldable pub calculate_secret_checksum : (String → Exec S Data) → List String → Exec S String
  unfolding calculate_checksum fetch_all
  calculate_secret_checksum get secret_names = do
    secret_maps ← fetch_all "secret fetch failed" get secret_names
    pure (calculate_checksum md5_hex secret_maps)

  -- `BinaryData` is written behind `Data` into one map.
  unfoldable pub config_map_data : (String → Exec S (Data × Data)) → String → Exec S Data
  config_map_data get name = do config_map ← get name; pure (assign config_map.0 config_map.1)

  unfoldable pub calculate_config_map_checksum :
      (String → Exec S (Data × Data)) → List String → Exec S String
  unfolding calculate_checksum fetch_all config_map_data
  calculate_config_map_checksum get config_map_names = do
    config_map_maps ← fetch_all "configmap fetch failed" (config_map_data get) config_map_names
    pure (calculate_checksum md5_hex config_map_maps)

  unfoldable pub set_checksum_annotations :
      {R : Type 0}
      → (String → Exec S Data)
      → (String → Exec S (Data × Data))
      → PodTemplateSpec R
      → Exec S (PodTemplateSpec R)
  unfolding annotate calculate_secret_checksum calculate_config_map_checksum
  set_checksum_annotations get_secret get_config_map template = do
    with_secrets ←
        annotate "checksum/secrets" "failed to calculate secret checksum"
          (calculate_secret_checksum get_secret) (extract_secret_names template.spec.volumes)
          template
    annotate "checksum/configmaps" "failed to calculate configmap checksum"
        (calculate_config_map_checksum get_config_map)
        (extract_config_map_names with_secrets.spec.volumes) with_secrets
