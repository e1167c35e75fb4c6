-- ===== src/Tests/Hosts.antt =====
-- The inventory with one host, on a controller that obeys.
use airshipctl.Base.{String, none, [], ◌∷◌, ok}
use airshipctl.Redfish.Dell.{Http}
use airshipctl.Inventory.{HostSelector, Documents}
use airshipctl.Tests.Bmc.{Bmc}

abbrev no_http : Http Bmc
no_http = record {
  request_error = λ url. none;
  send = λ request w. ((none, none), w);
  unmarshal = λ text. none;
}

abbrev documents : Documents
documents = record {
  Document = String;
  select = λ selector. ok ("node-0" ∷ []);
  select_one = λ selector. ok "node-0";
  get_string = λ doc path. ok "redfish+https://bmc/redfish/v1/Systems/node";
  name_of = λ doc. doc;
  namespace_of = λ doc. "";
  select_credentials = λ name. ok name;
  secret_data_key = λ doc key. ok "";
}

abbrev by_name : HostSelector
by_name = record { label_selector = ""; name = "node-0"; namespace = "" }
