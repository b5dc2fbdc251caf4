-- ===== src/State.antt =====
-- constellation/constellation/state/state.go: the state file of a cluster. The file handler is a
-- parameter.
pub mod Constraints
pub mod Fields
pub mod Verdicts
pub mod Stages
use geth_sev.Prelude.{
  ℕ, Bytes, codes, List, [], ◌∷◌, ◌++◌, Bool, Option, none, some, Result, ok, err, map_err,
}
use geth_sev.Validation.{
  Comparable, Constraint, with_trace, equal, empty, not_empty, one_of, empty_slice, not_empty_slice,
  ip_address, cidr, dns_name, if_not_nil, and_all, or_any, evaluate_all, validate, ValidationError,
}
use geth_sev.Variant.{
  Variant, azure_sev_snp, azure_tdx, azure_trusted_launch, gcp_sev_es, gcp_sev_snp,
}

pub record Gcp : Type 0 where
  pub project_id : Bytes
  pub ip_cidr_pod : Bytes

pub record Azure : Type 0 where
  pub resource_group : Bytes
  pub subscription_id : Bytes
  pub network_security_group_name : Bytes
  pub load_balancer_name : Bytes
  pub user_assigned_identity : Bytes
  pub attestation_url : Bytes

pub record OpenStack : Type 0 where
  pub network_id : Bytes
  pub subnet_id : Bytes

-- A pointer to a provider's values is nil or refers to them.
pub record Infrastructure : Type 0 where
  pub uid : Bytes
  pub cluster_endpoint : Bytes
  pub in_cluster_endpoint : Bytes
  pub init_secret : Bytes
  pub api_server_cert_sans : List Bytes
  pub name : Bytes
  pub ip_cidr_node : Bytes
  pub azure : Option Azure
  pub gcp : Option Gcp
  pub open_stack : Option OpenStack

pub record ClusterValues : Type 0 where
  pub cluster_id : Bytes
  pub owner_id : Bytes
  pub measurement_salt : Bytes

pub record State : Type 0 where
  pub version : Bytes
  pub infrastructure : Infrastructure
  pub cluster_values : ClusterValues

abbrev pub version1 : Bytes
version1 = codes "v1"

abbrev no_infrastructure : Infrastructure
no_infrastructure = record {
  uid = [];
  cluster_endpoint = [];
  in_cluster_endpoint = [];
  init_secret = [];
  api_server_cert_sans = [];
  name = [];
  ip_cidr_node = [];
  azure = none;
  gcp = none;
  open_stack = none;
}

abbrev no_values : ClusterValues
no_values = record { cluster_id = []; owner_id = []; measurement_salt = [] }

-- `New`
unfoldable pub new : State
new = record { version = version1; infrastructure = no_infrastructure; cluster_values = no_values }

-- `SetInfrastructure`
unfoldable pub set_infrastructure : Infrastructure → State → State
set_infrastructure i s = record {
  version = s.version;
  infrastructure = i;
  cluster_values = s.cluster_values;
}

-- `SetClusterValues`
unfoldable pub set_cluster_values : ClusterValues → State → State
set_cluster_values v s = record {
  version = s.version;
  infrastructure = s.infrastructure;
  cluster_values = v;
}

-- The file handler and mergo, as far as they are used: reading and writing the state as YAML.
pub data ReadError : Type 0 where
  not_exist : ReadError
  unreadable : Bytes → ReadError

pub data FileError : Type 0 where
  reading : ReadError → FileError
  writing : Bytes → FileError

-- `ReadFromFile`
unfoldable pub read_from_file : Result ReadError State → Result FileError State
read_from_file found = map_err reading found

-- `CreateOrRead`, at what the file has and what writing returns: the returned state and error, and
-- the state that is written, if any.
pub record Created : Type 0 where
  pub state : Option State
  pub failure : Option FileError
  pub written : Option State

unfoldable pub create_or_read : Result ReadError State → Result Bytes (Unit {0}) → Created
unfolding read_from_file new
create_or_read found write = elim (read_from_file found) [
  | ok s ↦ record { state = some s; failure = none; written = none }
  | err (reading not_exist) ↦ record {
    state = some new;
    failure = elim write [ ok u ↦ none | err e ↦ some (writing e) ];
    written = some new;
  }
  | err other ↦ record { state = none; failure = some other; written = none }
]
