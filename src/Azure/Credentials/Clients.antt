-- ===== src/Azure/Credentials/Clients.antt =====
-- The clients that `initCredentials` of Azure makes.
use cloud_network_config_con.Base.{String, ◌≡◌, refl, ap, subst}
use cloud_network_config_con.Effect.{ok}
use cloud_network_config_con.Effect.Success.{Gives, gives, Gives-bind, Gives-on_error, Gives-pure}
use cloud_network_config_con.Files.{Files, read_secret_data}
use cloud_network_config_con.Cloud.{CloudProviderConfig}
use cloud_network_config_con.Azure.Credentials.{
  Environment, AzureClient, AzureClients, AzureLibrary, get_authorizer, pick_environment,
  new_client, init_credentials,
}

module _ {S : Type 0} (F : Files S) (L : AzureLibrary S) where
  -- At some time the file was read with this text.
  abbrev pub WasRead : CloudProviderConfig → String → String → Type 0
  WasRead cfg file text = (s : S) × ((F.read_file (F.join cfg.credential_dir file) s).0 ≡ ok text)

  -- The client is for these endpoints and this subscription.
  abbrev pub IsFor : Environment → String → L.Authorizer → AzureClient L.Authorizer → Type 0
  IsFor env subscription authorizer c =
      (c.base_uri ≡ env.resource_manager_endpoint)
      × (c.subscription_id ≡ subscription)
      × (c.authorizer ≡ authorizer)

  read_secret_data-WasRead :
      (cfg : CloudProviderConfig) (file text : String) (s t : S)
      → Gives (read_secret_data F cfg.credential_dir file) s text t
      → WasRead cfg file text
  unfolding read_secret_data
  read_secret_data-WasRead cfg file text s t h = (
    s,
    ap (λ x. x.0) (Gives-on_error (F.read_file (F.join cfg.credential_dir file)) _ s text t h),
  )

  abbrev pub Ready : CloudProviderConfig → AzureClients L.Authorizer → Type 0
  Ready cfg c =
      (client_id tenant_id client_secret subscription : String) × (authorizer : L.Authorizer) × (t
        u : S)
      × WasRead cfg "azure_client_id" client_id
      × WasRead cfg "azure_tenant_id" tenant_id
      × WasRead cfg "azure_client_secret" client_secret
      × WasRead cfg "azure_subscription_id" subscription
      × WasRead cfg "azure_resourcegroup" c.resource_group
      × ((pick_environment F L cfg u).0 ≡ ok c.env)
      × ((get_authorizer F L c.env client_id client_secret tenant_id t).0 ≡ ok authorizer)
      × IsFor c.env subscription authorizer c.vm_client
      × IsFor c.env subscription authorizer c.network_client
      × IsFor c.env subscription authorizer c.virtual_network_client

  -- If the credentials of Azure are set up, then all five secrets were read; the resource group is one
  -- of them; and the clients of virtual machines, interfaces and virtual networks are for the resource
  -- manager of the chosen environment, for the subscription of the secret, and with one authorizer,
  -- that of the three other secrets.
  pub init_credentials-clients :
      (cfg : CloudProviderConfig) (c : AzureClients L.Authorizer) (s : S)
      → (init_credentials F L cfg s).0 ≡ ok c
      → Ready cfg c
  unfolding init_credentials new_client
  init_credentials-clients cfg c s h =
      let (z, g) = gives (init_credentials F L cfg) s c h in
      let secret = read_secret_data F cfg.credential_dir in
      let (id, s1, g1, h1) = Gives-bind (secret "azure_client_id") _ s c z g in
      let (tenant, s2, g2, h2) = Gives-bind (secret "azure_tenant_id") _ s1 c z h1 in
      let (key, s3, g3, h3) = Gives-bind (secret "azure_client_secret") _ s2 c z h2 in
      let (subscription, s4, g4, h4) = Gives-bind (secret "azure_subscription_id") _ s3 c z h3 in
      let (group, s5, g5, h5) = Gives-bind (secret "azure_resourcegroup") _ s4 c z h4 in
      let (env, s6, g6, h6) = Gives-bind (pick_environment F L cfg) _ s5 c z h5 in
      let (auth, s7, g7, h7) = Gives-bind (get_authorizer F L env id key tenant) _ s6 c z h6 in
      subst (Ready cfg) (Gives-pure _ c s7 z h7) (
        id,
        tenant,
        key,
        subscription,
        auth,
        s6,
        s5,
        read_secret_data-WasRead cfg "azure_client_id" id s s1 g1,
        read_secret_data-WasRead cfg "azure_tenant_id" tenant s1 s2 g2,
        read_secret_data-WasRead cfg "azure_client_secret" key s2 s3 g3,
        read_secret_data-WasRead cfg "azure_subscription_id" subscription s3 s4 g4,
        read_secret_data-WasRead cfg "azure_resourcegroup" group s4 s5 g5,
        ap (λ x. x.0) g6,
        ap (λ x. x.0) g7,
        (refl, refl, refl),
        (refl, refl, refl),
        (refl, refl, refl),
      )
