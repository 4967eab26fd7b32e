-- ===== src/Tests/GcpLedger.antt =====
-- A compute API that stores aliases, and a call of the provider over it.
use cloud_network_config_con.Base.{
  String, List, [], ◌∷◌, none, some, Bool, true, ◌&&◌, ◌≡◌, ◌≢◌, refl, sym, ◌∙◌, ap, subst, arith,
  eq_iff, beq_refl, Bool-cases, inl, inr, ◌==◌, string_eq, if◌then◌else◌,
}
use cloud_network_config_con.Base.Text.{join, split}
use cloud_network_config_con.Effect.{ok}
use cloud_network_config_con.Effect.Success.{Gives-pure_world}
use cloud_network_config_con.Cloud.{Node}
use cloud_network_config_con.Cloud.Ledger.{give, Step, assign, perform, Asks, IsAllowed}
use cloud_network_config_con.Gcp.{
  Interface, Instance, Compute, first_interface, get_instance, wait_for_completion, update,
  assign_private_ip,
}
use cloud_network_config_con.Gcp.Urls.{Location, split_gcp_node}
use cloud_network_config_con.Gcp.Aliases.{is_covered}
use cloud_network_config_con.Gcp.Provider.{provider}
use cloud_network_config_con.Gcp.Ledger.{HasAddress, perform-Step}
use cloud_network_config_con.Gcp.Store.{Store}
use cloud_network_config_con.Tests.Sim.{text_net}

-- The aliases of every instance.
abbrev World : Type 0
World = Location → List String

abbrev at : String → String → String → Location
at p z i = record { project = p; zone = z; instance = i }

abbrev is_at : Location → Location → Bool
is_at l m = l.project == m.project && (l.zone == m.zone && l.instance == m.instance)

abbrev nic : List String → Interface
nic ranges = record {
  name = "nic0";
  subnetwork = "";
  alias_ip_ranges = ranges;
  force_send_fields = [];
}

abbrev stored : Location → List String → World → World
stored l ranges s m = if is_at m l then ranges else s m

abbrev cloud : Compute World
cloud = record {
  parse_url = λ u. ok ("project", "/zone/a");
  get_instance =
      λ p z i s. (ok (record { name = i; network_interfaces = some (nic (s (at p z i))) ∷ [] }), s);
  update_network_interface =
      λ p z i n new s. (ok "operation", stored (at p z i) new.alias_ip_ranges s);
  wait = λ p z o s. (ok none, s);
  get_subnetwork = λ p r n s. (ok ("", ""), s);
}

is_at-eq : (l m : Location) → is_at l m ≡ true → l ≡ m
is_at-eq l m h = λ j. record { project = p j; zone = z j; instance = i j }
  where
    p : l.project ≡ m.project
    p = ground (arith, h, eq_iff l.project m.project)

    z : l.zone ≡ m.zone
    z = ground (arith, h, eq_iff l.zone m.zone)

    i : l.instance ≡ m.instance
    i = ground (arith, h, eq_iff l.instance m.instance)

stored_here : (l : Location) (ranges : List String) (s : World) → stored l ranges s l ≡ ranges
stored_here l ranges s = rw (beq_refl l.project, beq_refl l.zone, beq_refl l.instance) refl

stored_there :
    (l m : Location) (ranges : List String) (s : World) → m ≢ l → stored l ranges s m ≡ s m
stored_there l m ranges s ne = elim (Bool-cases (is_at m l)) [
  | inl h ↦ elim (ne (is_at-eq m l h)) [ ]
  | inr h ↦ rw h refl
]

abbrev instance_of : Location → World → Instance
instance_of l s = record { name = l.instance; network_interfaces = some (nic (s l)) ∷ [] }

same_value : (a b : Interface) → ok a ≡ ok b → a ≡ b
same_value a b h = cc

store : Store cloud
store = record {
  interface_name = λ l s. "nic0";
  aliases = λ l s. s l;
  is_done = λ l o s. true;
  reads = λ l i n s t g f.
      let (e, w) = Gives-pure_world (instance_of l s) i s t g in
      let m : nic (s l) ≡ n = same_value _ _ (subst (λ x. first_interface x ≡ ok n) (sym e) f) in
      (
        sym (ap (λ x. x.name) e),
        sym (ap (λ x. x.name) m),
        sym (ap (λ x. x.alias_ip_ranges) m) ∙ ap (λ x. x l) w,
        λ b. ap (λ x. x b) (sym w),
      );
  stores = λ l n operation s t u f forced g k done.
      let w =
        (Gives-pure_world "operation" operation (stored l n.alias_ip_ranges s) t g).1
        ∙ (Gives-pure_world none none t u k).1 in
      (
        ap (λ x. x l) (sym w) ∙ stored_here l n.alias_ip_ranges s,
        λ m ne. ap (λ x. x m) (sym w) ∙ stored_there l m n.alias_ip_ranges s ne,
      );
}

abbrev host : Node
host = record { name = "a"; provider_id = "gce://project/zone/a"; annotations = none }

abbrev place : Location
place = record { project = "project"; zone = "zone"; instance = "a" }

abbrev before : World
before l = "10.0.0.1" ∷ []

located : split_gcp_node cloud.parse_url host ≡ ok place
unfolding split_gcp_node split join
located = refl

assigned : (perform (provider text_net cloud) (some "10.0.0.5") (assign host) before).0 ≡ ok tt
unfolding perform assign_private_ip get_instance split_gcp_node split join is_covered update
    wait_for_completion
assigned = refl

permitted : IsAllowed (provider text_net cloud) (assign host)
unfolding IsAllowed
permitted = tt

asked : Asks (λ node l. split_gcp_node cloud.parse_url node ≡ ok l) (assign host) (give place)
unfolding Asks
asked = located

perform-Step_example :
    Step
      (give place)
      (λ l. HasAddress text_net store (some "10.0.0.5") l before)
      (λ l.
        HasAddress text_net store
          (some "10.0.0.5")
          l
          (perform (provider text_net cloud) (some "10.0.0.5") (assign host) before).1)
unfolding store
perform-Step_example =
    perform-Step text_net store (some "10.0.0.5") "10.0.0.5" refl refl (assign host) (give place)
      before (λ l o t u w. refl) permitted asked assigned
