-- ===== src/Tests/Client.antt =====
-- Credentials that can be read, and the choice of a provider.
use cloud_network_config_con.Base.{String, [], ◌∷◌, some, false, ◌≡◌, refl, string_eq}
use cloud_network_config_con.Effect.{ok}
use cloud_network_config_con.Files.{read_secret_data}
use cloud_network_config_con.Cloud.{CloudProviderConfig}
use cloud_network_config_con.Settings.{defaults}
use cloud_network_config_con.Aws.Credentials.{open_ca_bundle, init_credentials as init_aws}
use cloud_network_config_con.Gcp.Credentials.{
  with_credentials_json, with_user_agent, with_endpoint, client_options,
  init_credentials as init_gcp,
}
use cloud_network_config_con.Azure.Credentials.{
  Environment, ClientCredentials, AzureClient, AzureClients, get_authorizer, pick_environment,
  new_client, init_credentials as init_azure,
}
use cloud_network_config_con.Azure.Credentials.Clients.{Ready, init_credentials-clients}
use cloud_network_config_con.OpenStack.Credentials.{
  section_of, read_cloud, allow_reauth, with_bundle, read_bundle,
  init_credentials as init_openstack,
}
use cloud_network_config_con.OpenStack.Credentials.Bundle.{
  CloudSeen, BundleSeen, init_credentials-seen,
}
use cloud_network_config_con.Client.{new_cloud_provider_client}
use cloud_network_config_con.OpenStack.Provider.{provider as openstack_provider}
use cloud_network_config_con.Tests.Sim.{text_net}
use cloud_network_config_con.Tests.SimNeutron.{World, neutron}
use cloud_network_config_con.Tests.SimLibraries.{
  files, no_bundle, aws, gcp, azure, openstack, platforms,
}

abbrev empty : World
empty q = []

abbrev on : String → CloudProviderConfig
on platform = record defaults.platform { platform_type = platform }

connected :
    (init_openstack no_bundle openstack (on "OpenStack") empty).0
    ≡ ok (record { nova_client = ""; neutron_client = "" })
unfolding init_openstack section_of read_cloud allow_reauth with_bundle read_bundle
connected = refl

trusting :
    (init_openstack (files (λ _. false)) openstack (on "OpenStack") empty).0
    ≡ ok (record { nova_client = "ca-bundle.pem"; neutron_client = "ca-bundle.pem" })
unfolding init_openstack section_of read_cloud allow_reauth with_bundle read_bundle
trusting = refl

made :
    (new_cloud_provider_client platforms text_net (on "OpenStack") empty).0
    ≡ ok (openstack_provider text_net neutron)
unfolding new_cloud_provider_client init_openstack section_of read_cloud allow_reauth with_bundle
    read_bundle
made = refl

init_credentials-seen_example :
    CloudSeen no_bundle openstack "clouds.yaml" × BundleSeen no_bundle openstack "ca-bundle.pem"
init_credentials-seen_example =
    init_credentials-seen no_bundle openstack (on "OpenStack")
      (record { nova_client = ""; neutron_client = "" }) empty connected

abbrev environment : Environment
environment = record {
  resource_manager_endpoint = "AzurePublicCloud";
  active_directory_endpoint = "AzurePublicCloud";
  token_audience = "AzurePublicCloud";
}

abbrev client : AzureClient ClientCredentials
client = record {
  base_uri = "AzurePublicCloud";
  subscription_id = "azure_subscription_id";
  authorizer = record {
    tenant_id = "azure_tenant_id";
    client_id = "azure_client_id";
    client_secret = "azure_client_secret";
    aad_endpoint = "AzurePublicCloud";
    resource = "AzurePublicCloud";
  };
  added_user_agent = "cloud-network-config-controller";
}

abbrev clients : AzureClients ClientCredentials
clients = record {
  resource_group = "azure_resourcegroup";
  env = environment;
  vm_client = client;
  network_client = client;
  virtual_network_client = client;
}

prepared : (init_azure no_bundle azure (on "Azure") empty).0 ≡ ok clients
unfolding init_azure get_authorizer pick_environment new_client read_secret_data
prepared = refl

init_credentials-clients_example : Ready no_bundle azure (on "Azure") clients
init_credentials-clients_example =
    init_credentials-clients no_bundle azure (on "Azure") clients empty prepared

signed_in :
    (init_gcp no_bundle gcp (record (on "GCP") { api_override = "here" }) empty).0
    ≡ ok (
        with_credentials_json "service_account.json"
        ∷ with_user_agent "cloud-network-config-controller"
        ∷ with_endpoint "here"
        ∷ [])
unfolding init_gcp client_options read_secret_data
signed_in = refl

in_session :
    (init_aws no_bundle aws (record (on "AWS") { aws_ca_override = "ca" }) empty).0
    ≡ ok (record { shared_config_files = "credentials" ∷ []; custom_ca_bundle = some "ca" })
unfolding init_aws open_ca_bundle
in_session = refl
