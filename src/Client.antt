-- ===== src/Client.antt =====
-- pkg/cloudprovider/cloudprovider.go: `NewCloudProviderClient`
use cloud_network_config_con.Base.{
  String, [], ◌∷◌, true, false, Bool-cases, inl, inr, ◌==◌, string_eq, eq_iff, ◌≡◌, refl, sym,
  arith, if◌then◌else◌,
}
use cloud_network_config_con.Effect.{errorf, ok, M, ◌>>=◌, pure, raise}
use cloud_network_config_con.Effect.Ensures.{Ensures, Anywhere, anything, bind_rule, value_of_ok}
use cloud_network_config_con.Cloud.{Net, CloudProvider, CloudProviderConfig}
use cloud_network_config_con.Files.{Files}
use cloud_network_config_con.Aws.Credentials.{AwsLibrary, init_credentials as init_aws}
use cloud_network_config_con.Gcp.Credentials.{GcpLibrary, init_credentials as init_gcp}
use cloud_network_config_con.Azure.Credentials.{AzureLibrary, init_credentials as init_azure}
use cloud_network_config_con.OpenStack.Credentials.{
  OpenStackLibrary, init_credentials as init_openstack,
}
use cloud_network_config_con.Aws.Provider.{provider as aws_provider}
use cloud_network_config_con.Gcp.Provider.{provider as gcp_provider}
use cloud_network_config_con.Azure.Provider.{provider as azure_provider}
use cloud_network_config_con.OpenStack.Provider.{provider as openstack_provider}

-- The libraries that make the clients of the clouds.
pub record Platforms (S : Type 0) : Type 1 where
  pub files : Files S
  pub aws : AwsLibrary S
  pub gcp : GcpLibrary S
  pub azure : AzureLibrary S
  pub openstack : OpenStackLibrary S

-- The provider that uses the client which was made.
abbrev made_with : {S A B : Type 0} → M S A → (A → B) → M S B
made_with init f = init >>= λ a. pure (f a)

module _ {S : Type 0} (P : Platforms S) where
  module _ (N : Net) where
    -- A provider whose credentials cannot be set up is returned with the error, which all callers
    -- test.
    unfoldable pub new_cloud_provider_client : CloudProviderConfig → M S (CloudProvider N S)
    new_cloud_provider_client cfg =
        if cfg.platform_type == "Azure"
        then made_with (init_azure P.files P.azure cfg) (λ c. azure_provider N (P.azure.calls c))
        else (if cfg.platform_type == "AWS"
            then made_with (init_aws P.files P.aws cfg) (λ c. aws_provider N (P.aws.calls c))
            else (if cfg.platform_type == "GCP"
                then made_with (init_gcp P.files P.gcp cfg) (λ c. gcp_provider N (P.gcp.calls c))
                else (if cfg.platform_type == "OpenStack"
                    then made_with (init_openstack P.files P.openstack cfg)
                        (λ c. openstack_provider N (P.openstack.calls c.neutron_client))
                    else raise (
                        errorf "unsupported cloud provider platform type: %s"
                          (cfg.platform_type ∷ [])))))

    abbrev Moves : String → CloudProvider N S → S → Type 0
    Moves platform c s = c.allows_move_private_ip ≡ (platform == "OpenStack")

    made :
        {A : Type 0} (platform : String) (init : M S A) (f : A → CloudProvider N S)
        → ((a : A) → (f a).allows_move_private_ip ≡ (platform == "OpenStack"))
        → Ensures Anywhere (made_with init f) (Moves platform) Anywhere
    made platform init f h =
        bind_rule Anywhere Anywhere (λ _. Anywhere) (Moves platform) init (λ a. pure (f a))
          (anything init) (λ a s _. h a)

    other :
        (platform name : String)
        → (platform == name) ≡ true
        → (name == "OpenStack") ≡ false
        → false ≡ (platform == "OpenStack")
    other platform name h k = ground (arith, eq_iff platform name, h, k)

    moves_lem :
        (cfg : CloudProviderConfig)
        → Ensures Anywhere (new_cloud_provider_client cfg) (Moves cfg.platform_type) Anywhere
    unfolding new_cloud_provider_client
    moves_lem cfg = elim (Bool-cases (cfg.platform_type == "Azure")) [
      | inl h ↦ rw h (
          made cfg.platform_type (init_azure P.files P.azure cfg) _
            (λ _. other cfg.platform_type "Azure" h refl))
      | inr a ↦ elim (Bool-cases (cfg.platform_type == "AWS")) [
        | inl h ↦
            rw (a, h)
              (made cfg.platform_type (init_aws P.files P.aws cfg) _
                (λ _. other cfg.platform_type "AWS" h refl))
        | inr b ↦ elim (Bool-cases (cfg.platform_type == "GCP")) [
          | inl h ↦
              rw (a, b, h)
                (made cfg.platform_type (init_gcp P.files P.gcp cfg) _
                  (λ _. other cfg.platform_type "GCP" h refl))
          | inr c ↦ elim (Bool-cases (cfg.platform_type == "OpenStack")) [
            | inl h ↦
                rw (a, b, c, h)
                  (made cfg.platform_type (init_openstack P.files P.openstack cfg) _ (λ _. sym h))
            | inr h ↦ rw (a, b, c, h) (λ s _. tt)
          ]
        ]
      ]
    ]

    -- The provider that is made for a platform moves addresses just if the platform is OpenStack.
    pub new_cloud_provider_client-moves :
        (cfg : CloudProviderConfig) (c : CloudProvider N S) (s : S)
        → (new_cloud_provider_client cfg s).0 ≡ ok c
        → c.allows_move_private_ip ≡ (cfg.platform_type == "OpenStack")
    new_cloud_provider_client-moves cfg c s h =
        value_of_ok (Moves cfg.platform_type) (new_cloud_provider_client cfg s) c
          (moves_lem cfg s tt) h
