-- ===== src/Azure/Names.antt =====
-- The name that is read from the id of a network interface.
use Prim.Native.String.append
use Prim.Native.String.{◌++◌}
use cloud_network_config_con.Base.{String, none, some, true, ◌≡◌, refl, ap, sym, ◌∙◌, arith}
use cloud_network_config_con.Base.Text.{free, trim_prefix, behind}
use cloud_network_config_con.Azure.Interfaces.{get_name_from_resource_id}

free_lem : (b : String) → free b'/' b ≡ true → get_name_from_resource_id b ≡ none
unfolding get_name_from_resource_id
free_lem String.[] h = refl
free_lem (String.◌∷◌ c b) h = ground (arith, h, free_lem b)

last_lem :
    (a b : String)
    → free b'/' b ≡ true
    → get_name_from_resource_id (a ++ ("/" ++ b)) ≡ some ("/" ++ b)
unfolding get_name_from_resource_id
last_lem String.[] b h =
    ap get_name_from_resource_id (append.nil ("/" ++ b) ∙ slash_eq)
    ∙ (named ∙ sym (ap some slash_eq))
  where
    slash_eq : "/" ++ b ≡ String.◌∷◌ "/" b
    slash_eq = append.cons "/" "" b ∙ ap (String.◌∷◌ "/") (append.nil b)

    named : get_name_from_resource_id (String.◌∷◌ "/" b) ≡ some (String.◌∷◌ "/" b)
    named = rw (free_lem b h) refl
last_lem (String.◌∷◌ c a) b h =
    ap get_name_from_resource_id (append.cons c a ("/" ++ b)) ∙ rw (last_lem a b h) refl

-- From an id that ends with a slash and a name without one, that part is read, and the name is what
-- is left of it without the slash.
pub get_name_from_resource_id-append :
    (a b : String)
    → free b'/' b ≡ true
    → (get_name_from_resource_id (a ++ ("/" ++ b)) ≡ some ("/" ++ b))
      × (trim_prefix "/" ("/" ++ b) ≡ b)
unfolding trim_prefix behind
get_name_from_resource_id-append a b h = (last_lem a b h, rw (append.cons, append.nil) refl)
