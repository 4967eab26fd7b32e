-- ===== src/Files.antt =====
-- The files that credentials are read from, and `readSecretData` of pkg/cloudprovider/cloudprovider.go
use cloud_network_config_con.Base.{String, [], Bool}
use cloud_network_config_con.Effect.{GoError, errorf_of, M, on_error}

-- `ioutil.ReadFile`, `filepath.Join` of two names, and `os.IsNotExist`.
pub record Files (S : Type 0) : Type 0 where
  pub read_file : String → M S String
  pub join : String → String → String
  pub is_not_exist : GoError → Bool

-- `UserAgent`
abbrev pub user_agent : String
user_agent = "cloud-network-config-controller"

module _ {S : Type 0} (F : Files S) where
  -- `readSecretData` of a secret in the directory of the credentials.
  unfoldable pub read_secret_data : String → String → M S String
  read_secret_data credential_dir secret =
      on_error (F.read_file (F.join credential_dir secret))
        (errorf_of "unable to read secret data, err: %v" [])
