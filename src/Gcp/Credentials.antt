-- ===== src/Gcp/Credentials.antt =====
-- pkg/cloudprovider/gcp.go: `initCredentials`, which makes the client of the compute API.
use cloud_network_config_con.Base.{String, List, [], ◌∷◌, ◌==◌, string_eq, if◌then◌else◌}
use cloud_network_config_con.Effect.{errorf_of, M, ◌>>=◌, on_error}
use cloud_network_config_con.Files.{Files, read_secret_data, user_agent}
use cloud_network_config_con.Cloud.{CloudProviderConfig}
use cloud_network_config_con.Gcp.{Compute}

-- `option.ClientOption`
pub data ClientOption : Type 0 where
  with_credentials_json with_user_agent with_endpoint : String → ClientOption

-- `google.NewService`, and the calls of a client.
pub record GcpLibrary (S : Type 0) : Type 1 where
  pub Client : Type 0
  pub new_service : List ClientOption → M S Client
  pub calls : Client → Compute S

unfoldable pub client_options : String → CloudProviderConfig → List ClientOption
client_options secret cfg =
    with_credentials_json secret
    ∷ with_user_agent user_agent
    ∷ (if cfg.api_override == "" then [] else with_endpoint cfg.api_override ∷ [])

module _ {S : Type 0} (F : Files S) (L : GcpLibrary S) where
  unfoldable pub init_credentials : CloudProviderConfig → M S L.Client
  init_credentials cfg = read_secret_data F cfg.credential_dir "service_account.json" >>= λ secret.
      on_error (L.new_service (client_options secret cfg))
        (errorf_of "error: cannot initialize google client, err: %v" [])
