-- ===== src/Tests/Copying.antt =====
-- A replacement of a name by a text.
use airshipctl.Base.{none, some, [], ◌∷◌, All, ◌≡◌, refl}
use airshipctl.Replacing.{Selector, Replacement, new_plugin}
use airshipctl.Replacing.Checks.{WellFormed, new_plugin-eq-ok}

abbrev hosts : Selector
hosts = record {
  group = "";
  version = "";
  kind = "BareMetalHost";
  name = "";
  namespace = "";
  label_selector = "";
}

abbrev rename : Replacement
rename = record {
  source = some (record { obj_ref = none; field_ref = ""; value = some "node-0" });
  target = some (record { obj_ref = some hosts; field_refs = "metadata.name" ∷ [] });
  targets = none;
}

new_plugin-eq-ok_example : All WellFormed (rename ∷ []) × ((rename ∷ []) ≡ (rename ∷ []))
unfolding new_plugin
new_plugin-eq-ok_example = (new_plugin-eq-ok (rename ∷ []) (rename ∷ [])).0 refl
