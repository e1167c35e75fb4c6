-- ===== src/Tests/Booting.antt =====
-- SetBootSourceByType of the Redfish client on the controller in memory.
