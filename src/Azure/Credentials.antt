-- ===== src/Azure/Credentials.antt =====
-- pkg/cloudprovider/azure.go: `initCredentials` and `getAuthorizer`, which make the clients of Azure.
pub mod Clients
use cloud_network_config_con.Base.{String, [], ◌==◌, string_eq, if◌then◌else◌}
use cloud_network_config_con.Effect.{wrapf, M, ◌>>=◌, pure, on_error}
use cloud_network_config_con.Files.{Files, read_secret_data, user_agent}
use cloud_network_config_con.Cloud.{CloudProviderConfig}
use cloud_network_config_con.Azure.{Azure}

-- The endpoints of an `azure.Environment` that are used.
pub record Environment : Type 0 where
  pub resource_manager_endpoint : String
  pub active_directory_endpoint : String
  pub token_audience : String

-- `auth.ClientCredentialsConfig`
pub record ClientCredentials : Type 0 where
  pub tenant_id : String
  pub client_id : String
  pub client_secret : String
  pub aad_endpoint : String
  pub resource : String

-- A client of virtual machines, interfaces or virtual networks: these three are made alike.
pub record AzureClient (Authorizer : Type 0) : Type 0 where
  pub base_uri : String
  pub subscription_id : String
  pub authorizer : Authorizer
  pub added_user_agent : String

-- What `initCredentials` sets of the provider.
pub record AzureClients (Authorizer : Type 0) : Type 0 where
  pub resource_group : String
  pub env : Environment
  pub vm_client : AzureClient Authorizer
  pub network_client : AzureClient Authorizer
  pub virtual_network_client : AzureClient Authorizer

-- `azure.EnvironmentFromURL`, `azure.EnvironmentFromName`, `ClientCredentialsConfig.Authorizer`, and
-- the calls of the clients.
pub record AzureLibrary (S : Type 0) : Type 1 where
  pub Authorizer : Type 0
  pub environment_from_url : String → M S Environment
  pub environment_from_name : String → M S Environment
  pub make_authorizer : ClientCredentials → M S Authorizer
  pub calls : AzureClients Authorizer → Azure S

module _ {S : Type 0} (F : Files S) (L : AzureLibrary S) where
  -- `getAuthorizer`
  unfoldable pub get_authorizer : Environment → String → String → String → M S L.Authorizer
  get_authorizer env client_id client_secret tenant_id = L.make_authorizer (record {
    tenant_id = tenant_id;
    client_id = client_id;
    client_secret = client_secret;
    aad_endpoint = env.active_directory_endpoint;
    resource = env.token_audience;
  })

  unfoldable pub pick_environment : CloudProviderConfig → M S Environment
  pick_environment cfg =
      on_error
        (if cfg.api_override == ""
          then L.environment_from_name
              (if cfg.azure_environment == "" then "AzurePublicCloud" else cfg.azure_environment)
          else L.environment_from_url cfg.api_override)
        (wrapf "failed to initialize Azure environment: %w" [])

  unfoldable pub new_client : Environment → String → L.Authorizer → AzureClient L.Authorizer
  new_client env subscription_id authorizer = record {
    base_uri = env.resource_manager_endpoint;
    subscription_id = subscription_id;
    authorizer = authorizer;
    added_user_agent = user_agent;
  }

  unfoldable pub init_credentials : CloudProviderConfig → M S (AzureClients L.Authorizer)
  init_credentials cfg = do
    client_id ← read_secret_data F cfg.credential_dir "azure_client_id"
    tenant_id ← read_secret_data F cfg.credential_dir "azure_tenant_id"
    client_secret ← read_secret_data F cfg.credential_dir "azure_client_secret"
    subscription_id ← read_secret_data F cfg.credential_dir "azure_subscription_id"
    resource_group ← read_secret_data F cfg.credential_dir "azure_resourcegroup"
    env ← pick_environment cfg
    authorizer ← get_authorizer env client_id client_secret tenant_id
    pure (record {
      resource_group = resource_group;
      env = env;
      vm_client = new_client env subscription_id authorizer;
      network_client = new_client env subscription_id authorizer;
      virtual_network_client = new_client env subscription_id authorizer;
    })
