-- ===== src/Aws/ProviderId.antt =====
-- `getInstanceIdFromProviderId`
use cloud_network_config_con.Base.{
  String, Option, none, some, ltb, length, last?, true, ◌≡◌, ◌≢◌, refl, beq_of_ne, ◌==◌, string_eq,
  if◌then◌else◌,
}
use cloud_network_config_con.Base.Text.{
  split, trim_prefix, free, trim_prefix-append, split-append, split-free,
}
use Prim.Native.String.{◌++◌}
use cloud_network_config_con.Effect.{unexpected_uri, Result, ok, err, panic}

-- `splitProviderId[len(splitProviderId)-1]`; `none` is an index out of range.
abbrev pub last_part : String → Option String → Result String
last_part provider_id none = panic
last_part provider_id (some id) = if id == "" then err (unexpected_uri provider_id) else ok id

unfoldable pub get_instance_id_from_provider_id : String → Result String
get_instance_id_from_provider_id provider_id =
    let parts = split b'/' (trim_prefix "aws://" provider_id) in
    if ltb 3 (length parts)
    then err (unexpected_uri provider_id)
    else last_part provider_id (last? parts)

-- A name without slashes that is not empty.
abbrev pub IsName : String → Type 0
IsName s = (free b'/' s ≡ true) × (s ≢ "")

module _ (zone id : String) (zoned : IsName zone) (named : IsName id) where
  -- The id of an instance is read back from each of the three forms of a provider id that the source
  -- lists, for a zone and an id that are not empty and have no slash.
  pub get_instance_id_from_provider_id-forms :
      (get_instance_id_from_provider_id ("aws://" ++ ("" ++ ("/" ++ (zone ++ ("/" ++ id)))))
        ≡ ok id)
      × (get_instance_id_from_provider_id ("aws://" ++ (zone ++ ("/" ++ id))) ≡ ok id)
      × (get_instance_id_from_provider_id ("aws://" ++ ("" ++ ("/" ++ id))) ≡ ok id)
  unfolding get_instance_id_from_provider_id
  get_instance_id_from_provider_id-forms = (
    rw
        (
          trim_prefix-append,
          split-append "" (zone ++ ("/" ++ id)) refl,
          split-append zone id zoned.0,
          split-free b'/' id named.0,
          beq_of_ne id "" named.1,
        )
        refl,
    rw
        (
          trim_prefix-append,
          split-append zone id zoned.0,
          split-free b'/' id named.0,
          beq_of_ne id "" named.1,
        )
        refl,
    rw
        (
          trim_prefix-append,
          split-append "" id refl,
          split-free b'/' id named.0,
          beq_of_ne id "" named.1,
        )
        refl,
  )
