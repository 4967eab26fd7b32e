-- ===== src/OpenStack/Quiet.antt =====
-- The calls of OpenStack that change no allowed pairs, and those that only remove the address.
use cloud_network_config_con.Base.{
  String, List, [], ◌∷◌, Option, none, some, Bool, true, false, not, ◌&&◌, string_eq, ◌≡◌, refl,
  ◌∙◌, if◌then◌else◌, ap, subst, arith, eq_iff,
}
use cloud_network_config_con.Effect.{
  GoError, Result, ok, err, panic, M, continue, raise, ◌>>=◌, lift, optional, answered,
}
use cloud_network_config_con.Effect.Success.{Gives, Gives-bind, Gives-lift, Gives-guard}
use cloud_network_config_con.Effect.Steps.{Steps, Steps-bind, Steps-optional}
use cloud_network_config_con.Cloud.{Net, Node}
use cloud_network_config_con.OpenStack.{
  Port, Subnet, Neutron, get_subnets, list_server_ports, is_allowed,
}
use cloud_network_config_con.OpenStack.Ids.{is_invalid_id, egress_ip_tag}
use cloud_network_config_con.OpenStack.Reservation.{
  is_reservation, find_reservation, search_pages, or_later, has_fixed_ip, reserve,
  release_reservation, get_reservation,
}
use cloud_network_config_con.OpenStack.Assign.{
  fits, matching_subnet, chosen, or_nothing, find_in_ports, find_subnet_and_port,
}
use cloud_network_config_con.OpenStack.Release.{release_found, release_subnets}
use cloud_network_config_con.OpenStack.Store.{Store, owned_ports, owned_pages}
use cloud_network_config_con.OpenStack.{get_server_id}

module _ {N : Net} {S : Type 0} {E : Neutron S} {ip : Option N.Addr} (X : Store N E ip) where
  -- Every port allows what it did.
  unfoldable pub Same : S → S → Type 0
  Same s t = (q : String) → X.allows t q ≡ X.allows s q

  pub Same-trans : (s t u : S) → Same s t → Same t u → Same s u
  unfolding Same
  Same-trans s t u h k q = k q ∙ h q

  abbrev pub Quiet : {A : Type 0} → M S A → Type 0
  Quiet m = Steps Same m

  pub Quiet-if :
      {A : Type 0} (b : Bool) (m n : M S A) → Quiet m → Quiet n → Quiet (if b then m else n)
  Quiet-if true m n h k = h
  Quiet-if false m n h k = k

  pub Quiet-bind :
      {A B : Type 0} (m : M S A) (f : A → M S B)
      → Quiet m
      → ((a : A) → Quiet (f a))
      → Quiet (m >>= f)
  Quiet-bind m f = Steps-bind Same Same-trans m f

  pub get_subnets-Quiet : (n : String) → Quiet (get_subnets E n)
  unfolding get_subnets Same
  get_subnets-Quiet n =
      Quiet-if (E.is_uuid n) _ _
        (Quiet-bind (E.list_subnets n) _ (X.subnets_keeps n) (λ pages s q. refl)) (λ s q. refl)

  pub list_server_ports-Quiet : (id : String) → Quiet (list_server_ports E id)
  unfolding list_server_ports Same
  list_server_ports-Quiet id =
      Quiet-if (E.is_uuid id) _ _
        (Quiet-bind (E.list_ports _) _ (X.list_keeps _) (λ pages s q. refl)) (λ s q. refl)

  pub reserve-Quiet : (s : Subnet) (id : String) → Quiet (reserve N E s ip id)
  unfolding reserve Same
  reserve-Quiet s id = Quiet-if (is_invalid_id id) _ _ (λ s q. refl) (X.create_keeps _)

  guarded-Quiet :
      {A : Type 0} (b : Bool) (e : GoError) (m : M S A)
      → (b ≡ true → Quiet m)
      → Quiet (if not b then raise e else m)
  unfolding Same
  guarded-Quiet true e m h = h refl
  guarded-Quiet false e m h = λ s q. refl

  reservation_tag :
      (id : String) (p : Port) → is_reservation id p ≡ true → p.device_owner ≡ egress_ip_tag
  unfolding is_reservation
  reservation_tag id p h = ground (arith, h, eq_iff p.device_owner egress_ip_tag)

  -- The port that is deleted is one that was reserved.
  release_reservation-Quiet :
      (p : Port) (id : String)
      → X.owner p.id ≡ p.device_owner
      → Quiet (release_reservation N E p id)
  unfolding release_reservation Same
  release_reservation-Quiet p id o =
      Quiet-if (is_invalid_id id) _ _ (λ s q. refl)
        (guarded-Quiet (is_reservation id p) _ (E.delete_port p.id)
          (λ h s q. X.delete_keeps p.id s q (o ∙ reservation_tag id p h)))

  pub get_reservation-Quiet : (s : Subnet) (id : String) → Quiet (get_reservation N E s ip id)
  unfolding get_reservation Same
  get_reservation-Quiet s id =
      Quiet-if (is_invalid_id id) _ _ (λ s q. refl)
        (Quiet-bind (E.list_ports _) _ (X.list_keeps _) (λ pages s q. refl))

  found_owner :
      (s : Subnet) (id : String) (ps : List Port) (p : Port)
      → owned_ports X.owner ps ≡ true
      → find_reservation N s ip id ps ≡ some p
      → X.owner p.id ≡ p.device_owner
  unfolding find_reservation
  found_owner s id [] p o h = cc
  found_owner s id (x ∷ ps) p o h =
      by_test (is_reservation id x && has_fixed_ip N s ip x)
        (λ e. found_owner s id ps p (ground (arith, o)) e) h
    where
      same_value : some x ≡ some p → x ≡ p
      same_value e = cc

      by_test :
          (b : Bool)
          → (find_reservation N s ip id ps ≡ some p → X.owner p.id ≡ p.device_owner)
          → (if b then some x else find_reservation N s ip id ps) ≡ some p
          → X.owner p.id ≡ p.device_owner
      by_test true rest e =
          subst (λ y. X.owner y.id ≡ y.device_owner) (same_value e)
            (ground (arith, o, eq_iff (X.owner x.id) x.device_owner))
      by_test false rest e = rest e

  search_owner :
      (s : Subnet) (id : String) (pages : List (Result (List Port))) (p : Port)
      → owned_pages X.owner pages ≡ true
      → search_pages N s ip id pages ≡ ok p
      → X.owner p.id ≡ p.device_owner
  unfolding search_pages
  search_owner s id [] p o h = cc
  search_owner s id (err e ∷ pages) p o h = cc
  search_owner s id (panic ∷ pages) p o h = cc
  search_owner s id (ok ps ∷ pages) p o h =
      by_found (find_reservation N s ip id ps) (found_owner s id ps p (ground (arith, o)))
        (λ e. search_owner s id pages p (ground (arith, o)) e) h
    where
      by_found :
          (f : Option Port)
          → (f ≡ some p → X.owner p.id ≡ p.device_owner)
          → (search_pages N s ip id pages ≡ ok p → X.owner p.id ≡ p.device_owner)
          → or_later N f (search_pages N s ip id pages) ≡ ok p
          → X.owner p.id ≡ p.device_owner
      by_found none k rest e = rest e
      by_found (some x) k rest e = k cc

  -- A reservation that was found has its owner.
  reservation_owner :
      (sub : Subnet) (id : String) (s t : S) (p : Port)
      → Gives (get_reservation N E sub ip id) s p t
      → X.owner p.id ≡ p.device_owner
  unfolding get_reservation
  reservation_owner sub id s t p h =
      let (valid, g) = Gives-guard (is_invalid_id id) _ _ s p t h in
      let (pages, u, listed, k) = Gives-bind (E.list_ports _) _ s p t g in
      let (found, w) = Gives-lift (search_pages N sub ip id pages) u p t k in
      search_owner sub id pages p (X.list_owners _ s (ap (λ x. x.0) listed)) found

  -- The reservation of a subnet, if one is found, is given back.
  release_subnet-Quiet :
      (found : Bool) (sub : Subnet) (id : String)
      → Quiet (optional (get_reservation N E sub ip id) >>= release_found N E found id)
  unfolding release_found Same
  release_subnet-Quiet found sub id s =
      by_result (get_reservation N E sub ip id s) refl (get_reservation-Quiet sub id s)
    where
      by_result :
          (o : Result Port × S)
          → get_reservation N E sub ip id s ≡ o
          → Same s o.1
          → Same s (continue (release_found N E found id) (answered o)).1
      by_result (ok p, t) e h = Same-trans s t _ h (
          Quiet-bind (release_reservation N E p id) _
            (release_reservation-Quiet p id (reservation_owner sub id s t p e)) (λ _ s q. refl) t)
      by_result (err x, t) e h = h
      by_result (panic, t) e h = h

  pub release_subnets-Quiet :
      (found : Bool) (id : String) (ss : List Subnet) → Quiet (release_subnets N E found ip id ss)
  unfolding release_subnets Same
  release_subnets-Quiet found id [] = λ s q. refl
  release_subnets-Quiet found id (s ∷ ss) =
      Quiet-bind _ _ (Quiet-if (fits N ip s) _ _ (release_subnet-Quiet found s id) (λ s q. refl))
        (λ f. release_subnets-Quiet f id ss)

  chosen-Quiet :
      (p : Port) (o : Option Subnet) (rest : M S (Subnet × Port))
      → Quiet rest
      → Quiet (chosen N E p o rest)
  unfolding Same
  chosen-Quiet p none rest h = h
  chosen-Quiet p (some s) rest h = λ s q. refl

  find_in_ports-Quiet : (node : Node) (ps : List Port) → Quiet (find_in_ports N E ip node ps)
  unfolding find_in_ports Same
  find_in_ports-Quiet node [] = λ s q. refl
  find_in_ports-Quiet node (p ∷ ps) =
      Quiet-if (is_allowed N p ip) _ _ (λ s q. refl)
        (Quiet-bind (optional (get_subnets E p.network_id)) _
          (Steps-optional Same (get_subnets E p.network_id) (get_subnets-Quiet p.network_id))
          (λ subnets.
            Quiet-bind (lift (matching_subnet N ip node p none (or_nothing N subnets))) _
              (λ s q. refl)
              (λ o. chosen-Quiet p o (find_in_ports N E ip node ps) (find_in_ports-Quiet node ps))))

  pub find_subnet_and_port-Quiet : (node : Node) → Quiet (find_subnet_and_port N E ip node)
  unfolding find_subnet_and_port Same
  find_subnet_and_port-Quiet node =
      Quiet-bind (lift (get_server_id E node.provider_id)) _ (λ s q. refl)
        (λ id.
          Quiet-bind (list_server_ports E id) _ (list_server_ports-Quiet id)
            (find_in_ports-Quiet node))
