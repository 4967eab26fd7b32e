-- ===== src/Tests/SimLibraries.antt =====
-- Libraries that make clients of clouds which are not called, and files that hold their own names.
use cloud_network_config_con.Base.{
  String, List, [], ◌∷◌, some, Bool, true, false, ◌==◌, string_eq, if◌then◌else◌,
}
use cloud_network_config_con.Effect.{errorf, ok, err, api, not_found}
use cloud_network_config_con.Files.{Files}
use cloud_network_config_con.Aws.{Ec2}
use cloud_network_config_con.Gcp.{Compute}
use cloud_network_config_con.Azure.{Azure}
use cloud_network_config_con.Aws.Credentials.{SessionOptions, AwsLibrary}
use cloud_network_config_con.Gcp.Credentials.{ClientOption, GcpLibrary}
use cloud_network_config_con.Azure.Credentials.{ClientCredentials, AzureLibrary}
use cloud_network_config_con.OpenStack.Credentials.{OpenStackLibrary}
use cloud_network_config_con.Client.{Platforms}
use cloud_network_config_con.Tests.SimNeutron.{World, neutron}

abbrev pub no_ec2 : Ec2 World
no_ec2 = record {
  describe_instances = λ i s. (err (errorf "no cloud" []), s);
  describe_subnets = λ n s. (err (errorf "no cloud" []), s);
  describe_instance_types = λ t s. (err (errorf "no cloud" []), s);
  assign_ipv6_addresses = λ n a s. (err (errorf "no cloud" []), s);
  assign_private_ip_addresses = λ n a s. (err (errorf "no cloud" []), s);
  unassign_ipv6_addresses = λ n a s. (err (errorf "no cloud" []), s);
  unassign_private_ip_addresses = λ n a s. (err (errorf "no cloud" []), s);
  poll_immediate = λ m s. (err (errorf "no cloud" []), s);
}

abbrev pub no_compute : Compute World
no_compute = record {
  parse_url = λ u. err (errorf "no cloud" []);
  get_instance = λ p z i s. (err (errorf "no cloud" []), s);
  update_network_interface = λ p z i n nic s. (err (errorf "no cloud" []), s);
  wait = λ p z o s. (err (errorf "no cloud" []), s);
  get_subnetwork = λ p r n s. (err (errorf "no cloud" []), s);
}

abbrev pub no_azure : Azure World
no_azure = record {
  error_text = λ _. "";
  get_machine = λ name s. (err (errorf "no cloud" []), s);
  get_interface = λ name s. (err (errorf "no cloud" []), s);
  create_or_update = λ name n s. (err (errorf "no cloud" []), s);
  wait_for_completion = λ o s. (err (errorf "no cloud" []), s);
  get_virtual_network = λ g n e s. (err (errorf "no cloud" []), s);
}

-- The text of a file is its name, and some files are missing.
abbrev pub files : (String → Bool) → Files World
files missing = record {
  read_file = λ f s. (if missing f then err (api not_found) else ok f, s);
  join = λ d f. f;
  is_not_exist = λ e. true;
}

abbrev pub no_bundle : Files World
no_bundle = files (λ f. f == "ca-bundle.pem")

-- A client is a text that tells how it was made.
abbrev pub aws : AwsLibrary World
aws = record {
  File = String;
  Session = SessionOptions String;
  Client = SessionOptions String;
  open_file = λ f s. (ok f, s);
  new_session = λ o s. (ok o, s);
  new_ec2 = λ o c. o;
  calls = λ _. no_ec2;
}

abbrev pub gcp : GcpLibrary World
gcp = record { Client = List ClientOption; new_service = λ o s. (ok o, s); calls = λ _. no_compute }

abbrev pub azure : AzureLibrary World
azure = record {
  Authorizer = ClientCredentials;
  environment_from_url = λ u s. (
    ok (record {
      resource_manager_endpoint = u;
      active_directory_endpoint = u;
      token_audience = u;
    }),
    s,
  );
  environment_from_name = λ u s. (
    ok (record {
      resource_manager_endpoint = u;
      active_directory_endpoint = u;
      token_audience = u;
    }),
    s,
  );
  make_authorizer = λ c s. (ok c, s);
  calls = λ _. no_azure;
}

abbrev pub openstack : OpenStackLibrary World
openstack = record {
  AuthSettings = String;
  AuthOptions = String;
  ProviderClient = String;
  CertPool = String;
  ServiceClient = String;
  unmarshal = λ t. ok (
      (
        "openstack",
        record {
          cloud = "";
          auth_type = "";
          auth_info = some (record { allow_reauth = false; settings = t });
          region_name = "";
        },
      )
      ∷ []);
  auth_options = λ c s. (ok c.region_name, s);
  identity_endpoint = λ o. o;
  new_client = λ e s. (ok e, s);
  system_cert_pool = λ s. (ok "", s);
  append_certs_from_pem = λ p t. t;
  with_root_cas = λ p c. p;
  authenticate = λ p o s. (ok p, s);
  new_compute_v2 = λ p s. (ok p, s);
  new_network_v2 = λ p s. (ok p, s);
  calls = λ _. neutron;
}

abbrev pub platforms : Platforms World
platforms = record { files = no_bundle; aws = aws; gcp = gcp; azure = azure; openstack = openstack }
