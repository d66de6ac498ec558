-- ===== src/Server/Capabilities.antt =====
-- internal/gnmiserver/server.go: `Capabilities`.
use for_visibility.Prelude.{List, [], ◌∷◌}
use for_visibility.Text.{Bytes, text}

pub record ModelData : Type 0 where
  pub name : Bytes
  pub organization : Bytes
  pub version : Bytes

pub data Encoding : Type 0 where
  json_ietf proto : Encoding

pub record CapabilityResponse : Type 0 where
  pub gnmi_version : Bytes
  pub supported_models : List ModelData
  pub supported_encodings : List Encoding

abbrev pub open_config : Bytes → ModelData
open_config name = record { name = name; organization = text "OpenConfig"; version = [] }

-- a private origin that is carried beside OpenConfig
abbrev pub private_origin : Bytes → ModelData
private_origin name = record {
  name = name;
  organization = text "frr-visible";
  version = text "0.1.0";
}

-- (*Server).Capabilities
unfoldable pub capabilities : CapabilityResponse
capabilities = record {
  gnmi_version = text "0.10.0";
  supported_models =
      open_config (text "openconfig-interfaces")
      ∷ open_config (text "openconfig-network-instance")
      ∷ open_config (text "openconfig-lldp")
      ∷ private_origin (text "frr")
      ∷ private_origin (text "host")
      ∷ [];
  supported_encodings = json_ietf ∷ proto ∷ [];
}
