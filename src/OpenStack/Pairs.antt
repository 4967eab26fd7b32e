-- ===== src/OpenStack/Pairs.antt =====
-- `allowIPAddressOnNeutronPort` and `unallowIPAddressOnNeutronPort`
use cloud_network_config_con.Base.{String, List, [], ◌∷◌, ◌++◌, Option, not, if◌then◌else◌, keep}
use cloud_network_config_con.Base.Text.{has_text}
use cloud_network_config_con.Effect.{
  GoError, already_existing_ip, errorf, api, conflict, M, ◌>>=◌, ◌>>◌, pure, raise, on_error,
}
use cloud_network_config_con.Cloud.{Net}
use cloud_network_config_con.OpenStack.{Port, AddressPair, Neutron, is_allowed, is_pair_of}

module _ (N : Net) where
  abbrev pub with_pair : Option N.Addr → List AddressPair → List AddressPair
  with_pair ip pairs = pairs ++ ((record { ip_address = N.ip_string ip; mac_address = "" }) ∷ [])

  -- All pairs but those of the address.
  abbrev pub without_pair : Option N.Addr → List AddressPair → List AddressPair
  without_pair ip pairs = keep (λ p. not (is_pair_of N ip p)) pairs

module _ (N : Net) {S : Type 0} (E : Neutron S) where
  -- A refusal of the revision number is made a conflict, which is retried.
  abbrev pub as_conflict : GoError → GoError
  as_conflict e =
      if has_text "RevisionNumberConstraintFailed" (E.error_text e) then api conflict else e

  unfoldable pub update_pairs : Port → List AddressPair → M S (Unit {0})
  update_pairs p pairs =
      on_error
        (E.update_port p.id
          (record { allowed_address_pairs = pairs; revision_number = p.revision_number }))
        as_conflict
      >> pure tt

  unfoldable pub allow_latest : Option N.Addr → Port → M S (Unit {0})
  allow_latest ip p =
      if is_allowed N p ip
      then raise already_existing_ip
      else update_pairs p (with_pair N ip p.allowed_address_pairs)

  unfoldable pub unallow_latest : Option N.Addr → Port → M S (Unit {0})
  unallow_latest ip p =
      if not (is_allowed N p ip)
      then raise (
          errorf "IP address '%s' is not allowed on port '%s', cannot unallow it"
            (N.ip_string ip ∷ p.id ∷ []))
      else update_pairs p (without_pair N ip p.allowed_address_pairs)

  -- Every attempt reads the latest version of the port.
  unfoldable pub allow_on_port : String → Option N.Addr → M S (Unit {0})
  allow_on_port port_id ip = E.retry_on_conflict (E.get_port port_id >>= allow_latest ip)

  unfoldable pub unallow_on_port : String → Option N.Addr → M S (Unit {0})
  unallow_on_port port_id ip = E.retry_on_conflict (E.get_port port_id >>= unallow_latest ip)
