-- ===== src/OpenStack/Store.antt =====
-- What Neutron promises of the ports of servers, for one address. `attached` tells which ports belong
-- to a server, and `allows` which ports have the address among their allowed pairs. Nobody else adds
-- the address to a port, or changes the owner of one, meanwhile.
use cloud_network_config_con.Base.{
  String, List, [], ◌∷◌, Option, Bool, true, false, ◌≡◌, ◌≢◌, ◌⊎◌, ◌&&◌, ◌==◌, string_eq, any,
}
use cloud_network_config_con.Effect.{GoError, Result, ok, err, panic, M, is_already_existing_ip}
use cloud_network_config_con.Effect.Retry.{Runs}
use cloud_network_config_con.Cloud.{Net}
use cloud_network_config_con.OpenStack.{
  Port, Neutron, ListOpts, CreateOpts, UpdateOpts, all_pages, pairs_allow, nova_device_owner,
}
use cloud_network_config_con.OpenStack.Ids.{egress_ip_tag}

abbrev pub server_opts : String → ListOpts
server_opts server_id = record {
  network_id = "";
  device_owner = nova_device_owner;
  device_id = server_id;
}

-- Whether a list of ports shows that the port `q` has the address.
abbrev pub shows : (N : Net) → Option N.Addr → List Port → String → Bool
shows N ip ps q = any (λ p. p.id == q && pairs_allow N ip p.allowed_address_pairs) ps

-- Whether every port on the pages has the owner that is given by its id.
abbrev pub owned_ports : (String → String) → List Port → Bool
owned_ports owner [] = true
owned_ports owner (p ∷ ps) = owner p.id == p.device_owner && owned_ports owner ps

abbrev pub owned_pages : (String → String) → List (Result (List Port)) → Bool
owned_pages owner [] = true
owned_pages owner (ok ps ∷ pages) = owned_ports owner ps && owned_pages owner pages
owned_pages owner (err e ∷ pages) = owned_pages owner pages
owned_pages owner (panic ∷ pages) = owned_pages owner pages

pub record Store (N : Net) {S : Type 0} (E : Neutron S) (ip : Option N.Addr) : Type 1 where
  pub attached : String → String → Bool
  pub allows : S → String → Bool
  pub retry_runs : (call : M S (Unit {0})) (s : S) → Runs call s (E.retry_on_conflict call s)
  pub list_keeps :
      (opts : ListOpts) (s : S) (q : String) → allows (E.list_ports opts s).1 q ≡ allows s q
  pub subnets_keeps :
      (n : String) (s : S) (q : String) → allows (E.list_subnets n s).1 q ≡ allows s q
  pub create_keeps :
      (opts : CreateOpts) (s : S) (q : String) → allows (E.create_port opts s).1 q ≡ allows s q
  -- The owner of a port, as every list of ports shows it. Deleting a port that an assignment has
  -- reserved changes no pairs of others, since it has none; of other ports nothing is said.
  pub owner : String → String
  pub list_owners :
      (opts : ListOpts) (s : S) {pages : List (Result (List Port))}
      → (E.list_ports opts s).0 ≡ ok pages
      → owned_pages owner pages ≡ true
  pub delete_keeps :
      (id : String) (s : S) (q : String)
      → owner id ≡ egress_ip_tag
      → allows (E.delete_port id s).1 q ≡ allows s q
  pub get_keeps : (id : String) (s : S) (q : String) → allows (E.get_port id s).1 q ≡ allows s q
  -- The list of a server's ports is complete and has no others.
  pub list_attached :
      (server_id : String) (s : S) {pages : List (Result (List Port))} {ps : List Port}
      → (E.list_ports (server_opts server_id) s).0 ≡ ok pages
      → all_pages pages ≡ ok ps
      → ((q : String)
          → attached server_id q ≡ true
          → allows (E.list_ports (server_opts server_id) s).1 q ≡ true
          → shows N ip ps q ≡ true)
        × ((q : String) → any (λ p. p.id == q) ps ≡ true → attached server_id q ≡ true)
  pub get_reads :
      (id : String) (s : S) {p : Port}
      → (E.get_port id s).0 ≡ ok p
      → (p.id ≡ id) × (allows (E.get_port id s).1 id ≡ pairs_allow N ip p.allowed_address_pairs)
  -- An update writes one port, and one that fails may have been carried out or not.
  pub update_others :
      (id : String) (opts : UpdateOpts) (s : S) (q : String)
      → q ≢ id
      → allows (E.update_port id opts s).1 q ≡ allows s q
  pub update_keeps :
      (id : String) (opts : UpdateOpts) (s : S)
      → allows (E.update_port id opts s).1 id ≡ true
      → (allows s id ≡ true) ⊎ (pairs_allow N ip opts.allowed_address_pairs ≡ true)
  pub update_writes :
      (id : String) (opts : UpdateOpts) (s : S) {p : Port}
      → (E.update_port id opts s).0 ≡ ok p
      → allows (E.update_port id opts s).1 id ≡ pairs_allow N ip opts.allowed_address_pairs
  -- Neutron's errors are not the program's own.
  pub get_errors :
      (id : String) (s : S) {e : GoError}
      → (E.get_port id s).0 ≡ err e
      → is_already_existing_ip e ≡ false
  pub update_errors :
      (id : String) (opts : UpdateOpts) (s : S) {e : GoError}
      → (E.update_port id opts s).0 ≡ err e
      → is_already_existing_ip e ≡ false
