-- ===== src/Settings.antt =====
-- cmd/cloud-network-config-controller/main.go: the flags and the environment of the program, and the
-- controllers that a leader starts.
use cloud_network_config_con.Base.{
  String, List, [], ◌∷◌, ◌++◌, Bool, not, ◌&&◌, ◌||◌, ◌==◌, string_eq, if◌then◌else◌,
}
use cloud_network_config_con.Effect.{errorf, Result, ok, err}
use cloud_network_config_con.Cloud.{CloudProviderConfig}

-- The flags, and the variables of the environment that the downward API sets.
pub record Settings : Type 0 where
  pub secret_name : String
  pub config_name : String
  pub platform : CloudProviderConfig
  pub kube_config : String
  pub controller_name : String
  pub controller_namespace : String

-- The values of flags that are not given.
abbrev pub defaults : Settings
defaults = record {
  secret_name = "";
  config_name = "kube-cloud-config";
  platform = record {
    platform_type = "";
    api_override = "";
    credential_dir = "/etc/secret/cloudprovider";
    config_dir = "/kube-cloud-config";
    region = "";
    aws_ca_override = "";
    azure_environment = "AzurePublicCloud";
  };
  kube_config = "";
  controller_name = "";
  controller_namespace = "";
}

-- `init`: `parse` is `flag.Parse`, which changes the values of the flags that are given, and `env` is
-- `os.Getenv`. An error is printed by `klog.Exit`, which ends the program.
unfoldable pub read_settings : (Settings → Settings) → (String → String) → Result Settings
read_settings parse env =
    let s = parse defaults in
    let namespace = env "CONTROLLER_NAMESPACE" in
    let name = env "CONTROLLER_NAME" in
    if s.secret_name == "" || s.platform.platform_type == ""
    then err (errorf "-secret-name or -platform-type is empty, cannot initialize controller" [])
    else (if namespace == "" || name == ""
        then err (
            errorf
              "Controller ENV variables are empty: %q: %s, %q: %s, cannot initialize controller"
              ("CONTROLLER_NAMESPACE" ∷ namespace ∷ "CONTROLLER_NAME" ∷ name ∷ []))
        else ok (record s { controller_name = name; controller_namespace = namespace }))

pub data Controller : Type 0 where
  secret cloud_private_ip_config config_map node : Controller

-- `wg.Add(1)`, and a goroutine that runs a controller and then calls `wg.Done`.
pub data Action : Type 0 where
  add : Action
  go : Controller → Action

-- Whether the controller of the config map is wanted.
abbrev pub watches_config_map : Settings → Bool
watches_config_map s =
    not (s.config_name == "")
    && (s.platform.platform_type == "AWS" && not (s.platform.aws_ca_override == "")
        || s.platform.platform_type == "OpenStack")

-- The end of `OnStartedLeading`.
unfoldable pub start_controllers : Settings → List Action
start_controllers s =
    add
      ∷ go secret
      ∷ add
      ∷ go cloud_private_ip_config
      ∷ add
      ∷ (if watches_config_map s then add ∷ go config_map ∷ [] else [])
    ++ (go node ∷ [])
