-- ===== src/Tests/Reading.antt =====
-- What is read out of the documents in memory.
use airshipctl.Base.{Bool, false, some, [], ◌∷◌, ok, ◌≡◌, refl}
use airshipctl.Base.GoMap.{made, get, put, value_at}
use airshipctl.Base.Texts.{contains}
use airshipctl.Documents.Selectors.{new_selector, by_name}
use airshipctl.Documents.Library.{Value, truth, Fields, mapping}
use airshipctl.Documents.Values.{get_string_map, annotate}
use airshipctl.Documents.Values.Typed.{Texts, get_string_map-eq-ok, annotate_lem}
use airshipctl.Documents.Bundles.{get_all_documents, select, select_bundle, select_by_field_value}
use airshipctl.Documents.Bundles.Selecting.{
  Kept, select_bundle-documents, select_by_field_value-Kept,
}
use airshipctl.Documents.Secrets.{Holds, get_secret_data_key, get_secret_data_key-eq-ok}
use airshipctl.Tests.Shelf.{Paper, named, shelf, shelf-IsResourceMap, secret, other, bundle}

get_string_map-eq-ok_example :
    (fs : Fields) × (shelf.get_field_value "stringData" secret ≡ ok (mapping fs))
    × Texts fs (made []) (made (("username", "admin") ∷ []))
unfolding get_string_map get put
get_string_map-eq-ok_example =
    (get_string_map-eq-ok shelf "stringData" secret (made (("username", "admin") ∷ []))).0 refl

get_secret_data_key-eq-ok_example : Holds shelf (λ t. ok t) secret "username" "admin"
unfolding get_secret_data_key get_string_map get put
get_secret_data_key-eq-ok_example =
    (get_secret_data_key-eq-ok shelf (λ t. ok t) secret "username" "admin").0 refl

abbrev annotated : Paper
annotated = record secret { annotations = made (("owner", "lab") ∷ ("stage", "lab") ∷ []) }

annotate_lem_example : get "owner" annotated.annotations ≡ some "lab"
unfolding annotate get put
annotate_lem_example =
    annotate_lem shelf shelf-IsResourceMap (made (("owner", "lab") ∷ [])) secret annotated "owner"
      (tt, tt) refl

select_bundle-documents_example :
    (get_all_documents shelf (record bundle { res_map = secret ∷ [] })
      ≡ select shelf (by_name "bmc" new_selector) bundle)
    × (bundle.build_options ≡ bundle.build_options)
    × (bundle.files ≡ bundle.files)
unfolding select_bundle named
select_bundle-documents_example =
    select_bundle-documents shelf shelf-IsResourceMap (by_name "bmc" new_selector) bundle
      (record bundle { res_map = secret ∷ [] }) refl

abbrev is_true : Value → Bool
is_true (truth b) = b
is_true v = false

select_by_field_value-Kept_example :
    Kept shelf shelf-IsResourceMap "immutable" is_true (other ∷ secret ∷ []) (secret ∷ [])
unfolding select_by_field_value value_at contains
select_by_field_value-Kept_example =
    select_by_field_value-Kept shelf shelf-IsResourceMap "immutable" is_true bundle
      (record bundle { res_map = secret ∷ [] }) refl
