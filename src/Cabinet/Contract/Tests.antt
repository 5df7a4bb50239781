-- ===== src/Cabinet/Contract/Tests.antt =====
-- Paths at fixed parameters, and the theorems at them.
use erp_iot.Base.{◌≡◌, refl, [], ◌∷◌, some}
use erp_iot.Base.Int.{pos}
use erp_iot.Base.Text.{text_of_int}
use erp_iot.Cabinet.SessionPayload.{is_outlet}
use erp_iot.Cabinet.Contract.{
  int, str, Params, path, refused, unknown_key, not_a_pk, not_an_outlet, wrong_params, build_path,
  find_endpoint, external_path, parts, parts_from, check_params, check_param, endpoints,
  bidirectional, post, pk, Endpoint,
}
use erp_iot.Cabinet.Contract.Paths.{build_path-never_enable}

abbrev first_socket : Params
first_socket = ("pedestal_id", int (pos 7)) ∷ ("socket_name", str "Q1") ∷ []

abbrev socket_cmd : Endpoint
socket_cmd = record {
  key = "controls.socket_cmd";
  method = post;
  catalog_path = "/api/controls/pedestal/{pedestal_id}/socket/{socket_name}/cmd";
  id_type = pk;
  mode = bidirectional;
}

socket_path :
    build_path "controls.socket_cmd" first_socket
    ≡ path "/api/ext/controls/pedestal/7/socket/Q1/cmd"
unfolding build_path find_endpoint endpoints external_path parts parts_from check_params check_param
    text_of_int is_outlet
socket_path = refl

refused_paths :
    (build_path "controls.socket_cmd" [] ≡ refused wrong_params)
    × (build_path "usage.history" (("pedestal_id", str "P1") ∷ []) ≡ refused not_a_pk)
    × (build_path "controls.water_cmd"
          (("pedestal_id", int (pos 1)) ∷ ("valve_name", str "Q9") ∷ [])
        ≡ refused not_an_outlet)
unfolding build_path find_endpoint endpoints external_path parts parts_from check_params check_param
    text_of_int is_outlet
refused_paths = (refl, refl, refl)

socket_cmd_found : find_endpoint "controls.socket_cmd" ≡ some socket_cmd
unfolding find_endpoint endpoints
socket_cmd_found = refl

build_path-never_enable_example : build_path "controls.reset" [] ≡ refused unknown_key
build_path-never_enable_example = build_path-never_enable "controls.reset" [] refl
