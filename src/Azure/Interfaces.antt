-- ===== src/Azure/Interfaces.antt =====
-- `getInstance`, `getNetworkInterfaces`, `getNetworkInterface` and `getNameFromResourceID`
use cloud_network_config_con.Base.{
  String, List, [], ◌∷◌, ◌++◌, Option, none, some, Bool, true, false, nat_beq, if◌then◌else◌,
}
use cloud_network_config_con.Base.Text.{split}
use cloud_network_config_con.Effect.{
  no_network_interface, unexpected_uri, Result, ok, err, M, ◌>>=◌, pure, raise, lift, deref,
}
use cloud_network_config_con.Cloud.{Node}
use cloud_network_config_con.Azure.{InterfaceReference, Interface, Azure}
use Prim.Native.Char.{code}

-- The last slash of a text and what follows it; a text without one is sliced out of range.
abbrev slash_or : Option String → Option String → Option String
slash_or (some s) other = some s
slash_or none other = other

unfoldable pub get_name_from_resource_id : String → Option String
get_name_from_resource_id String.[] = none
get_name_from_resource_id (String.◌∷◌ c s) =
    slash_or (get_name_from_resource_id s)
      (if nat_beq (code c) b'/' then some (String.◌∷◌ c s) else none)

-- The last of the eleven parts of a provider id.
abbrev pub machine_part : String → List String → Result String
machine_part id (_ ∷ _ ∷ _ ∷ _ ∷ _ ∷ _ ∷ _ ∷ _ ∷ _ ∷ _ ∷ name ∷ []) = ok name
machine_part id _ = err (unexpected_uri id)

-- `Primary` is set, and `Primary` is set to false or not at all, for a reference with properties.
abbrev pub is_primary : Option (Option Bool) → Bool
is_primary (some (some b)) = b
is_primary _ = false

abbrev pub is_secondary : Option (Option Bool) → Bool
is_secondary none = false
is_secondary (some none) = true
is_secondary (some (some true)) = false
is_secondary (some (some false)) = true

module _ {S : Type 0} (E : Azure S) where
  unfoldable pub get_instance : Node → M S (Option (Option (List InterfaceReference)))
  get_instance node = do
    name ← lift (machine_part node.provider_id (split b'/' node.provider_id))
    machine ← E.get_machine name
    deref machine

  unfoldable pub get_network_interface : InterfaceReference → M S Interface
  get_network_interface r = do
    id ← deref r.id
    name ← deref (get_name_from_resource_id id)
    E.get_interface name

  -- The loop that ends with the first primary reference.
  unfoldable pub primary_interface : List InterfaceReference → M S (List Interface)
  primary_interface [] = pure []
  primary_interface (r ∷ rs) =
      let rest = primary_interface rs in
      if is_primary r.properties then get_network_interface r >>= (λ i. pure (i ∷ [])) else rest

  unfoldable pub other_interfaces : List InterfaceReference → M S (List Interface)
  other_interfaces [] = pure []
  other_interfaces (r ∷ rs) =
      let rest = other_interfaces rs in
      if is_secondary r.properties
      then get_network_interface r >>= (λ i. rest >>= (λ is. pure (i ∷ is)))
      else rest

  -- Without any, the first reference is taken.
  abbrev pub or_first : InterfaceReference → List Interface → M S (List Interface)
  or_first r [] = get_network_interface r >>= (λ i. pure (i ∷ []))
  or_first r (i ∷ is) = pure (i ∷ is)

  unfoldable pub get_network_interfaces :
      Option (Option (List InterfaceReference)) → M S (List Interface)
  get_network_interfaces (some (some (r ∷ rs))) =
      primary_interface (r ∷ rs)
      >>= (λ ps. other_interfaces (r ∷ rs) >>= (λ os. or_first r (ps ++ os)))
  get_network_interfaces _ = raise no_network_interface
