-- ===== src/Config/Edit/Management.antt =====
-- SetType of management.go.
use airshipctl.Base.{String, ok, err, ◌≡◌, ◌≢◌, ◌⊎◌, arith, eq_iff}
use airshipctl.Config.Types.{ManagementConfiguration, unknown_management_type}
use airshipctl.Config.Defaults.{redfish_type, redfish_dell_type}
use airshipctl.Config.Edit.{set_type}

-- SetType succeeds exactly for the two known types, and sets the type alone; for any other it reports
-- that type and leaves the configuration as it was.
pub set_type_atomic :
    (t : String) (m : ManagementConfiguration)
    → let (res, m') = set_type t m in
      (((t ≡ redfish_type) ⊎ (t ≡ redfish_dell_type))
        × (res ≡ ok tt)
        × (m' ≡ record m { type = t }))
      ⊎ ((t ≢ redfish_type)
          × (t ≢ redfish_dell_type)
          × (res ≡ err (unknown_management_type t))
          × (m' ≡ m))
unfolding set_type
set_type_atomic t m = ground (arith, eq_iff t redfish_type, eq_iff t redfish_dell_type)
