-- ===== src/Fake.antt =====
-- pkg/cloudprovider/cloudprovider_fake.go: the provider that the tests of the controllers use. It
-- notes the calls, fails as it is told to, and sleeps for a while before it succeeds.
use cloud_network_config_con.Base.{
  String, List, [], ◌∷◌, ◌++◌, Option, Bool, false, ℕ, ◌+◌, if◌then◌else◌,
}
use Prim.Native.String.{◌++◌ as append}
use cloud_network_config_con.Effect.{errorf, already_existing_ip, ok, M, ◌>>◌, pure, raise}
use cloud_network_config_con.Cloud.{Net, Node, NodeEgressIpConfiguration}

-- The settings of `FakeCloudProvider`; the delay is in nanoseconds.
pub record FakeSettings : Type 0 where
  pub mock_error_on_assign : Bool
  pub mock_error_on_assign_with_existing_ip_condition : Bool
  pub mock_error_on_release : Bool
  pub mock_error_on_wait : Bool
  pub mock_error_on_get_node_egress_ip_configuration : Bool
  pub delayed_completion : ℕ

-- `StateTracker`, and the time that has been slept.
pub record FakeState : Type 0 where
  pub state_tracker : List String
  pub slept : ℕ

-- `NewFakeCloudProvider`, which does not set the error of `GetNodeEgressIPConfiguration`.
abbrev pub new_fake_cloud_provider :
    (on_assign existing on_release on_wait : Bool) → ℕ → FakeSettings
new_fake_cloud_provider on_assign existing on_release on_wait delay = record {
  mock_error_on_assign = on_assign;
  mock_error_on_assign_with_existing_ip_condition = existing;
  mock_error_on_release = on_release;
  mock_error_on_wait = on_wait;
  mock_error_on_get_node_egress_ip_configuration = false;
  delayed_completion = delay;
}

module _ (N : Net) (f : FakeSettings) where
  abbrev track : String → Option N.Addr → Node → M FakeState (Unit {0})
  track verb ip node s = (
    ok tt,
    record s {
      state_tracker =
          s.state_tracker
          ++ (append verb (append "-" (append (N.ip_string ip) (append "-" node.name))) ∷ []);
    },
  )

  -- A delay of zero is no sleep.
  unfoldable pub fake_wait_for_completion : M FakeState (Unit {0})
  fake_wait_for_completion s =
      if f.mock_error_on_wait
      then raise (errorf "Waiting failed" []) s
      else (ok tt, record s { slept = s.slept + f.delayed_completion })

  unfoldable pub fake_assign_private_ip : Option N.Addr → Node → M FakeState (Unit {0})
  fake_assign_private_ip ip node =
      track "assign" ip node
      >> (if f.mock_error_on_assign
          then (if f.mock_error_on_assign_with_existing_ip_condition
              then raise already_existing_ip
              else raise (errorf "Assign failed" []))
          else fake_wait_for_completion)

  unfoldable pub fake_release_private_ip : Option N.Addr → Node → M FakeState (Unit {0})
  fake_release_private_ip ip node =
      track "release" ip node
      >> (if f.mock_error_on_release
          then raise (errorf "Release failed" [])
          else fake_wait_for_completion)

  unfoldable pub fake_get_node_egress_ip_configuration :
      Node → M FakeState (List NodeEgressIpConfiguration)
  fake_get_node_egress_ip_configuration node =
      if f.mock_error_on_get_node_egress_ip_configuration
      then raise (errorf "Get node egress IP configuration failed" [])
      else pure []
