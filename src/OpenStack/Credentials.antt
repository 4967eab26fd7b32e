-- ===== src/OpenStack/Credentials.antt =====
-- pkg/cloudprovider/openstack.go: `initCredentials`, which makes the clients of Nova and Neutron.
pub mod Bundle
use cloud_network_config_con.Base.{
  String, List, [], ◌∷◌, Option, none, some, Bool, true, ◌==◌, string_eq, if◌then◌else◌,
}
use cloud_network_config_con.Effect.{
  Result, ok, err, panic, GoError, errorf, errorf_of, M, ◌>>=◌, pure, raise, lift, deref, on_error,
}
use cloud_network_config_con.Files.{Files}
use cloud_network_config_con.Cloud.{CloudProviderConfig}
use cloud_network_config_con.OpenStack.{Neutron}

-- `clientconfig.AuthInfo`: the setting that is changed, and the other ones.
pub record AuthInfo (AuthSettings : Type 0) : Type 0 where
  pub allow_reauth : Bool
  pub settings : AuthSettings

-- A section of clouds.yaml, and the options that are made of it: `clientconfig.Cloud` and
-- `clientconfig.ClientOpts`, of which the same fields are used.
pub record CloudSection (AuthSettings : Type 0) : Type 0 where
  pub cloud : String
  pub auth_type : String
  pub auth_info : Option (AuthInfo AuthSettings)
  pub region_name : String

-- `yaml.Unmarshal`, `clientconfig.AuthOptions` and the identity endpoint of its result,
-- `openstack.NewClient`, `x509.SystemCertPool` and `AppendCertsFromPEM`, a provider with an HTTP
-- client that trusts a pool, `openstack.Authenticate`, which gives the provider its token, the two
-- service clients, and the calls of Neutron.
pub record OpenStackLibrary (S : Type 0) : Type 1 where
  pub AuthSettings : Type 0
  pub AuthOptions : Type 0
  pub ProviderClient : Type 0
  pub CertPool : Type 0
  pub ServiceClient : Type 0
  pub unmarshal : String → Result (List (String × CloudSection AuthSettings))
  pub auth_options : CloudSection AuthSettings → M S AuthOptions
  pub identity_endpoint : AuthOptions → String
  pub new_client : String → M S ProviderClient
  pub system_cert_pool : M S CertPool
  pub append_certs_from_pem : CertPool → String → CertPool
  pub with_root_cas : CertPool → ProviderClient → ProviderClient
  pub authenticate : ProviderClient → AuthOptions → M S ProviderClient
  pub new_compute_v2 : ProviderClient → M S ServiceClient
  pub new_network_v2 : ProviderClient → M S ServiceClient
  pub calls : ServiceClient → Neutron S

-- What `initCredentials` sets of the provider.
pub record ServiceClients (ServiceClient : Type 0) : Type 0 where
  pub nova_client : ServiceClient
  pub neutron_client : ServiceClient

-- The value and the error of `ioutil.ReadFile`, of which one is there.
pub data Reply : Type 0 where
  content : String → Reply
  failed : GoError → Reply

module _ {S : Type 0} where
  abbrev pub reply_of : Result String × S → Result Reply × S
  reply_of (ok text, s) = (ok (content text), s)
  reply_of (err e, s) = (ok (failed e), s)
  reply_of (panic, s) = (panic, s)

  abbrev pub reply : M S String → M S Reply
  reply m s = reply_of (m s)

-- A look-up in the map of sections.
unfoldable pub section_of : {A : Type 0} → List (String × A) → String → Option A
section_of [] name = none
section_of ((key, a) ∷ sections) name = if key == name then some a else section_of sections name

abbrev pub found_section : {S A : Type 0} → Option A → M S A
found_section none =
    raise
      (errorf "invalid clouds.yaml file. Missing section for cloud name '%s'" ("openstack" ∷ []))
found_section (some c) = pure c

module _ {S : Type 0} (F : Files S) (L : OpenStackLibrary S) where
  -- The section `openstack` of the file clouds.yaml.
  unfoldable pub read_cloud : String → M S (CloudSection L.AuthSettings)
  read_cloud file =
      on_error (F.read_file file) (errorf_of "could read file %s, err: %q" (file ∷ [])) >>= λ text.
      on_error (lift (L.unmarshal text))
        (errorf_of "could not parse cloud configuration from %s, err: %q" (file ∷ []))
      >>= λ clouds. found_section (section_of clouds "openstack")

  -- `cloud.AuthInfo.AllowReauth = true`, through a pointer
  unfoldable pub allow_reauth : CloudSection L.AuthSettings → M S (CloudSection L.AuthSettings)
  allow_reauth c = deref c.auth_info >>= λ a.
      pure (record c { auth_info = some (record a { allow_reauth = true }) })

  -- A provider that trusts the certificates that were read. `err` is nil where an empty text was
  -- read, and then %q prints `%!q(<nil>)`.
  unfoldable pub with_bundle : String → L.ProviderClient → Reply → M S L.ProviderClient
  with_bundle file p (content text) =
      if text == ""
      then raise (errorf "could not parse file '%s', err: %q" (file ∷ "%!q(<nil>)" ∷ []))
      else on_error L.system_cert_pool
          (errorf_of "could not initialize x509 SystemCertPool, err: %q" [])
        >>= λ pool. pure (L.with_root_cas (L.append_certs_from_pem pool text) p)
  with_bundle file p (failed e) =
      if F.is_not_exist e
      then pure p
      else raise (errorf_of "could not parse file '%s', err: %q" (file ∷ []) e)

  unfoldable pub read_bundle : String → L.ProviderClient → M S L.ProviderClient
  read_bundle file p = reply (F.read_file file) >>= with_bundle file p

  unfoldable pub init_credentials : CloudProviderConfig → M S (ServiceClients L.ServiceClient)
  init_credentials cfg = do
    section ← read_cloud (F.join cfg.credential_dir "clouds.yaml")
    cloud ← allow_reauth section
    opts ← L.auth_options cloud
    client ← L.new_client (L.identity_endpoint opts)
    trusting ← read_bundle (F.join cfg.config_dir "ca-bundle.pem") client
    provider ← L.authenticate trusting opts
    nova ← L.new_compute_v2 provider
    neutron ← L.new_network_v2 provider
    pure (record { nova_client = nova; neutron_client = neutron })
