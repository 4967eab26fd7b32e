-- ===== src/Tests/Fake.antt =====
-- Calls of the provider of the repository's tests.
use cloud_network_config_con.Base.{[], ◌∷◌, none, some, false, true, ◌≡◌, refl}
use cloud_network_config_con.Effect.{already_existing_ip, ok, err}
use cloud_network_config_con.Cloud.{Node}
use cloud_network_config_con.Fake.{
  FakeState, new_fake_cloud_provider, fake_assign_private_ip, fake_release_private_ip,
  fake_wait_for_completion,
}
use cloud_network_config_con.Tests.Sim.{text_net}

abbrev host : Node
host = record { name = "a"; provider_id = ""; annotations = none }

abbrev idle : FakeState
idle = record { state_tracker = []; slept = 0 }

noted :
    fake_assign_private_ip text_net
      (new_fake_cloud_provider true true false false 5)
      (some "10.0.0.5")
      host
      idle
    ≡ (err already_existing_ip, record { state_tracker = "assign-10.0.0.5-a" ∷ []; slept = 0 })
unfolding fake_assign_private_ip
noted = refl

released :
    fake_release_private_ip text_net
      (new_fake_cloud_provider true true false false 5)
      (some "10.0.0.5")
      host
      idle
    ≡ (ok tt, record { state_tracker = "release-10.0.0.5-a" ∷ []; slept = 5 })
unfolding fake_release_private_ip fake_wait_for_completion
released = refl
