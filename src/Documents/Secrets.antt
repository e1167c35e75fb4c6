-- ===== src/Documents/Secrets.antt =====
-- dochelper_utils.go, dochelper_baremetalhost.go and metadata/metadata.go: the data that are read out
-- of the documents of a bundle. `decode_base64` is the standard decoding.
use airshipctl.Base.{
  String, none, some, Outcome-cases, Option-cases, ok, err, crash, ◌>>=◌, found_or, ◌≡◌, ◌↔◌, ◌⊎◌,
  inl, inr, arith,
}
use airshipctl.Base.GoMap.{GoMap, get}
use airshipctl.Documents.Selectors.{
  Selector, document_data_key_not_found, document_malformed, new_selector, by_kind, by_name,
  by_namespace, secret_kind, new_bmc_credentials_selector, ApiObject, by_object, DocumentError,
  Reply,
}
use airshipctl.Documents.Library.{Call, Kustomize, library}
use airshipctl.Documents.Values.{get_string, get_string_map}
use airshipctl.Documents.Bundles.{Bundle, select_one, new_bundle_from_bytes}
use airshipctl.Phases.Helper.{Metadata}

-- NewNetworkDataSelector, and the documents that a bare-metal host refers to.
module _ (K : Kustomize) where
  open K use {Resource}

  unfoldable pub new_network_data_selector : Resource → Reply Selector
  new_network_data_selector bmh = do
    name ← get_string K "spec.networkData.name" bmh
    namespace ← get_string K "spec.networkData.namespace" bmh
    ok (by_name name (by_namespace namespace (by_kind secret_kind new_selector)))

  unfoldable pub get_bmh_bmc_address : Resource → Reply String
  get_bmh_bmc_address bmh = get_string K "spec.bmc.address" bmh

  -- metadata.Config: what the file at a path holds is read, and its metadata looked up. `read` is
  -- ioutil.ReadFile, and the object is an empty ManifestMetadata.
  unfoldable pub metadata_config : (String → Call String) → ApiObject → String → Reply Metadata
  metadata_config read meta_config phase_bundle_path = do
    bytes ← library (read phase_bundle_path)
    bundle ← new_bundle_from_bytes K bytes
    selector ← by_object meta_config
    doc ← select_one K selector bundle
    phase_path ← get_string K "spec.phase.path" doc
    prefix ← get_string K "spec.phase.docEntryPointPrefix" doc
    inventory_path ← get_string K "spec.inventory.path" doc
    ok (record {
      metadata_phase_path = phase_path;
      doc_entry_point_prefix = prefix;
      inventory_path = inventory_path;
    })

module _ (K : Kustomize) (decode_base64 : String → Call String) where
  open K use {Resource}

  -- The value under a key, of a map that stands in the document.
  abbrev key_of : Resource → String → GoMap String → Reply String
  key_of cfg key strings =
      found_or (get key strings) (document_data_key_not_found (K.name_of cfg) key)

  -- What is read under `data`, where there is no `stringData`.
  abbrev encoded_key : Resource → String → Reply (GoMap String) → Reply String
  encoded_key cfg key (ok strings) = key_of cfg key strings >>= λ res. library (decode_base64 res)
  encoded_key cfg key (err e) = err (
      document_malformed (K.name_of cfg)
        "The data or stringData structure is missing or malformed.")
  encoded_key cfg key (crash k) = crash k

  abbrev plain_key : Resource → String → Reply (GoMap String) → Reply String
  plain_key cfg key (ok strings) = key_of cfg key strings
  plain_key cfg key (err e) = encoded_key cfg key (get_string_map K "data" cfg)
  plain_key cfg key (crash k) = crash k

  unfoldable pub get_secret_data_key : Resource → String → Reply String
  get_secret_data_key cfg key = plain_key cfg key (get_string_map K "stringData" cfg)

  unfoldable pub get_bmh_network_data : Resource → Bundle K → Reply String
  unfolding new_network_data_selector get_secret_data_key
  get_bmh_network_data bmh bundle = do
    selector ← new_network_data_selector K bmh
    doc ← select_one K selector bundle
    get_secret_data_key doc "networkData"

  unfoldable pub get_bmh_bmc_credentials : Resource → Bundle K → Reply (String × String)
  unfolding get_secret_data_key
  get_bmh_bmc_credentials bmh bundle = do
    name ← get_string K "spec.bmc.credentialsName" bmh
    doc ← select_one K (new_bmc_credentials_selector name) bundle
    username ← get_secret_data_key doc "username"
    password ← get_secret_data_key doc "password"
    ok (username, password)

  -- The key stands in plain text under stringData, or there is no map of texts there and the key
  -- stands encoded under data.
  abbrev pub Holds : Resource → String → String → Type 0
  Holds cfg key value =
      ((m : GoMap String) × (get_string_map K "stringData" cfg ≡ ok m) × (get key m ≡ some value))
      ⊎ ((e : DocumentError) × (m : GoMap String) × (encoded : String) × (get_string_map K
              "stringData" cfg
            ≡ err e)
          × (get_string_map K "data" cfg ≡ ok m)
          × (get key m ≡ some encoded)
          × (decode_base64 encoded ≡ ok value))

  encoded_key-Holds :
      (cfg : Resource) (key value : String) (e : DocumentError)
      → get_string_map K "stringData" cfg ≡ err e
      → encoded_key cfg key (get_string_map K "data" cfg) ≡ ok value
      → Holds cfg key value
  encoded_key-Holds cfg key value e p h = elim (Outcome-cases (get_string_map K "data" cfg)) [
    | inl (m, q) ↦ elim (Option-cases (get key m)) [
      | inl g ↦ absurd (ground arith)
      | inr (encoded, g) ↦ elim (Outcome-cases (decode_base64 encoded)) [
        | inl (v, d) ↦ inr (e, m, encoded, p, q, g, ground arith)
        | inr (inl (x, d)) ↦ absurd (ground arith)
        | inr (inr (k, d)) ↦ absurd (ground arith)
      ]
    ]
    | inr (inl (x, q)) ↦ absurd (ground arith)
    | inr (inr (k, q)) ↦ absurd (ground arith)
  ]

  -- GetSecretDataKey gives a value exactly if it stands in plain text under the key of stringData, or
  -- stringData is no map of texts and the value is what the text under the key of data encodes.
  pub get_secret_data_key-eq-ok :
      (cfg : Resource) (key value : String)
      → (get_secret_data_key cfg key ≡ ok value) ↔ Holds cfg key value
  unfolding get_secret_data_key
  get_secret_data_key-eq-ok cfg key value = (
    λ h. elim (Outcome-cases (get_string_map K "stringData" cfg)) [
      | inl (m, p) ↦ elim (Option-cases (get key m)) [
        | inl g ↦ absurd (ground arith)
        | inr (v, g) ↦ inl (m, p, ground arith)
      ]
      | inr (inl (e, p)) ↦ encoded_key-Holds cfg key value e p (rw p at h)
      | inr (inr (k, p)) ↦ absurd (ground arith)
    ],
    λ holds. elim holds [
      | inl (m, p, g) ↦ ground arith
      | inr (e, m, encoded, p, q, g, d) ↦ ground arith
    ],
  )

  -- A secret with both fields is searched in stringData alone, whatever data holds.
  pub get_secret_data_key_hidden :
      (cfg : Resource) (key : String) (m : GoMap String)
      → get_string_map K "stringData" cfg ≡ ok m
      → get key m ≡ none
      → get_secret_data_key cfg key ≡ err (document_data_key_not_found (K.name_of cfg) key)
  unfolding get_secret_data_key
  get_secret_data_key_hidden cfg key m p g = ground arith
