-- ===== src/Tests/Aws.antt =====
-- The theorems on AWS at one instance with a list of IPv4 addresses.
use cloud_network_config_con.Base.{
  String, List, [], ◌∷◌, ◌++◌, Option, none, some, Bool, true, false, not, string_eq, keep,
  contains, ◌≡◌, refl, ne_of_beq,
}
use cloud_network_config_con.Effect.{errorf, Result, ok, err, panic, M}
use cloud_network_config_con.Cloud.{Node}
use cloud_network_config_con.Aws.{
  Interface, Ec2, assign_private_ip, release_private_ip, get_instance, completed, fulfilled,
  wait_for_completion, assign_new, release_all,
}
use cloud_network_config_con.Aws.{Instance}
use cloud_network_config_con.Aws.ProviderId.{
  get_instance_id_from_provider_id, get_instance_id_from_provider_id-forms,
}
use cloud_network_config_con.Aws.Waiting.{LastRead}
use cloud_network_config_con.Aws.Changes.{
  Released, assign_private_ip-LastRead, release_private_ip-Released,
}
use cloud_network_config_con.Aws.Agreement.{assign_private_ip-release_private_ip}
use cloud_network_config_con.Base.{◌⊎◌}
use cloud_network_config_con.Effect.{already_existing_ip, non_existing_ip}
use cloud_network_config_con.Base.Text.{split, trim_prefix, behind}
use Prim.Native.String.{◌++◌ as concat}
use cloud_network_config_con.Tests.Sim.{text_net}

abbrev pointers : List String → List (Option String)
pointers [] = []
pointers (s ∷ ss) = some s ∷ pointers ss

abbrev interface_of : List String → Interface
interface_of ss = record {
  network_interface_id = some "eni-1";
  subnet_id = some "subnet-1";
  ipv6_addresses = [];
  private_ip_addresses = pointers ss;
}

abbrev polled : Result Bool × List String → Result (Unit {0}) × List String
polled (ok true, s) = (ok tt, s)
polled (ok false, s) = (err (errorf "timed out waiting for the condition" []), s)
polled (err e, s) = (err e, s)
polled (panic, s) = (panic, s)

abbrev ec2 : Ec2 (List String)
ec2 = record {
  describe_instances = λ id s. (
    ok (
        ((record {
          instance_type = some "m5.large";
          network_interfaces = some (interface_of s) ∷ [];
        })
          ∷ [])
        ∷ []),
    s,
  );
  describe_subnets = λ id s. (ok [], s);
  describe_instance_types = λ t s. (ok [], s);
  assign_ipv6_addresses = λ id ips s. (ok tt, s);
  assign_private_ip_addresses = λ id ips s. (ok tt, s ++ ips);
  unassign_ipv6_addresses = λ id ips s. (ok tt, s);
  unassign_private_ip_addresses = λ id ips s. (ok tt, keep (λ x. not (contains ips x)) s);
  poll_immediate = λ m s. polled (m s);
}

polls :
    (m : M (List String) Bool) (s : List String)
    → (ec2.poll_immediate m s).0 ≡ ok tt
    → (u : List String) × (m u ≡ (ok true, (ec2.poll_immediate m s).1))
polls m s h = (s, by_cases (m s) h)
  where
    by_cases : (o : Result Bool × List String) → (polled o).0 ≡ ok tt → o ≡ (ok true, (polled o).1)
    by_cases (ok true, t) h = refl
    by_cases (ok false, t) h = cc
    by_cases (err e, t) h = cc
    by_cases (panic, t) h = cc

abbrev host : Node
host = record { name = "a"; provider_id = "aws:///zone/i-1"; annotations = none }

assigned_ok : (assign_private_ip text_net ec2 (some "10.0.0.5") host ("10.0.0.1" ∷ [])).0 ≡ ok tt
unfolding assign_private_ip assign_new get_instance wait_for_completion completed fulfilled
    get_instance_id_from_provider_id split trim_prefix behind
assigned_ok = refl

assign_private_ip-LastRead_example :
    LastRead text_net ec2 polls host "10.0.0.5"
      (λ texts. contains texts "10.0.0.5" ≡ true)
      (assign_private_ip text_net ec2 (some "10.0.0.5") host ("10.0.0.1" ∷ [])).1
assign_private_ip-LastRead_example =
    assign_private_ip-LastRead text_net ec2 polls (some "10.0.0.5") host ("10.0.0.1" ∷ [])
      assigned_ok

released_ok :
    (release_private_ip text_net ec2 (some "10.0.0.5") host ("10.0.0.1" ∷ "10.0.0.5" ∷ [])).0
    ≡ ok tt
unfolding release_private_ip release_all get_instance wait_for_completion completed fulfilled
    get_instance_id_from_provider_id split trim_prefix behind
released_ok = refl

release_private_ip-Released_example :
    Released text_net ec2 polls
      (some "10.0.0.5")
      host
      ("10.0.0.1" ∷ "10.0.0.5" ∷ [])
      (release_private_ip text_net ec2 (some "10.0.0.5") host ("10.0.0.1" ∷ "10.0.0.5" ∷ [])).1
release_private_ip-Released_example =
    release_private_ip-Released text_net ec2 polls (some "10.0.0.5") host
      ("10.0.0.1" ∷ "10.0.0.5" ∷ []) released_ok

get_instance_id_from_provider_id-forms_example :
    (get_instance_id_from_provider_id
        (concat "aws://" (concat "" (concat "/" (concat "us-west-2a" (concat "/" "i-0084")))))
      ≡ ok "i-0084")
    × (get_instance_id_from_provider_id
          (concat "aws://" (concat "us-west-2a" (concat "/" "i-0084")))
        ≡ ok "i-0084")
    × (get_instance_id_from_provider_id (concat "aws://" (concat "" (concat "/" "i-0084")))
        ≡ ok "i-0084")
get_instance_id_from_provider_id-forms_example =
    get_instance_id_from_provider_id-forms "us-west-2a" "i-0084"
      (refl, ne_of_beq "us-west-2a" "" refl) (refl, ne_of_beq "i-0084" "" refl)

abbrev read_instance : Instance
read_instance = record {
  instance_type = some "m5.large";
  network_interfaces = some (interface_of ("10.0.0.5" ∷ [])) ∷ [];
}

read_host : get_instance text_net ec2 host ("10.0.0.5" ∷ []) ≡ (ok read_instance, "10.0.0.5" ∷ [])
unfolding get_instance get_instance_id_from_provider_id split trim_prefix behind
read_host = refl

assign_private_ip-release_private_ip_example :
    (assign_private_ip text_net ec2 (some "10.0.0.5") host ("10.0.0.5" ∷ [])
      ≡ (err already_existing_ip, "10.0.0.5" ∷ []))
    ⊎ (release_private_ip text_net ec2 (some "10.0.0.5") host ("10.0.0.5" ∷ [])
        ≡ (err non_existing_ip, "10.0.0.5" ∷ []))
assign_private_ip-release_private_ip_example =
    assign_private_ip-release_private_ip text_net ec2 (some "10.0.0.5") host read_instance
      (interface_of ("10.0.0.5" ∷ [])) ("10.0.0.5" ∷ []) ("10.0.0.5" ∷ []) read_host refl refl
