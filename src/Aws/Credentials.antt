-- ===== src/Aws/Credentials.antt =====
-- pkg/cloudprovider/aws.go: `initCredentials`, which makes the client of EC2.
use cloud_network_config_con.Base.{
  String, List, [], ◌∷◌, Option, none, some, ◌==◌, string_eq, if◌then◌else◌,
}
use cloud_network_config_con.Effect.{wrapf, M, ◌>>=◌, pure, on_error}
use cloud_network_config_con.Files.{Files}
use cloud_network_config_con.Cloud.{CloudProviderConfig}
use cloud_network_config_con.Aws.{Ec2}

-- `session.Options`, with `SharedConfigState` enabled.
pub record SessionOptions (File : Type 0) : Type 0 where
  pub shared_config_files : List String
  pub custom_ca_bundle : Option File

-- `aws.Config`
pub record AwsConfig : Type 0 where
  pub region : String
  pub endpoint : Option String

-- `os.Open`, `session.NewSessionWithOptions`, `ec2.New`, and the calls of a client.
pub record AwsLibrary (S : Type 0) : Type 1 where
  pub File : Type 0
  pub Session : Type 0
  pub Client : Type 0
  pub open_file : String → M S File
  pub new_session : SessionOptions File → M S Session
  pub new_ec2 : Session → AwsConfig → Client
  pub calls : Client → Ec2 S

module _ {S : Type 0} (F : Files S) (L : AwsLibrary S) where
  unfoldable pub open_ca_bundle : String → M S (Option L.File)
  open_ca_bundle path =
      if path == ""
      then pure none
      else on_error (L.open_file path) (wrapf "could not open AWS CA bundle %s: %w" (path ∷ []))
        >>= λ f. pure (some f)

  unfoldable pub aws_config : CloudProviderConfig → AwsConfig
  aws_config cfg = record {
    region = cfg.region;
    endpoint = if cfg.api_override == "" then none else some cfg.api_override;
  }

  unfoldable pub init_credentials : CloudProviderConfig → M S L.Client
  init_credentials cfg = open_ca_bundle cfg.aws_ca_override >>= λ bundle.
      on_error
        (L.new_session (record {
          shared_config_files = F.join cfg.credential_dir "credentials" ∷ [];
          custom_ca_bundle = bundle;
        }))
        (wrapf "could not initialize AWS session: %w" [])
      >>= λ session. pure (L.new_ec2 session (aws_config cfg))
