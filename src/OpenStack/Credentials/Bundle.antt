-- ===== src/OpenStack/Credentials/Bundle.antt =====
-- What a success of `initCredentials` of OpenStack means for the two files.
use cloud_network_config_con.Base.{
  String, List, ◌≡◌, ◌≢◌, ◌⊎◌, inl, inr, Option, none, some, true, Bool-cases, string_eq, ap, subst,
  refl,
}
use cloud_network_config_con.Effect.{Result, ok, err, panic, GoError, lift, deref, on_error}
use cloud_network_config_con.Effect.Success.{Gives, gives, Gives-bind, Gives-on_error, Gives-deref}
use cloud_network_config_con.Files.{Files}
use cloud_network_config_con.Cloud.{CloudProviderConfig}
use cloud_network_config_con.OpenStack.Credentials.{
  OpenStackLibrary, CloudSection, AuthInfo, ServiceClients, Reply, content, failed, reply_of, reply,
  section_of, found_section, read_cloud, allow_reauth, with_bundle, read_bundle, init_credentials,
}

module _ {S : Type 0} (F : Files S) (L : OpenStackLibrary S) where
  -- The bundle was read, and it was a text that is not empty, or it was missing.
  abbrev pub BundleSeen : String → Type 0
  BundleSeen file =
      (t : S) × (((text : String) × ((F.read_file file t).0 ≡ ok text) × (text ≢ ""))
        ⊎ ((e : GoError) × ((F.read_file file t).0 ≡ err e) × (F.is_not_exist e ≡ true)))

  -- clouds.yaml was read, and its section `openstack` has an `auth`.
  abbrev pub CloudSeen : String → Type 0
  CloudSeen file =
      (t : S) × (text : String) × (sections : List (String × CloudSection L.AuthSettings))
      × (c : CloudSection L.AuthSettings) × (a : AuthInfo L.AuthSettings) × ((F.read_file file t).0
          ≡ ok text)
      × (L.unmarshal text ≡ ok sections)
      × (section_of sections "openstack" ≡ some c)
      × (c.auth_info ≡ some a)

  reply_lem :
      (o : Result String × S) (r : Reply) (t : S)
      → reply_of o ≡ (ok r, t)
      → ((text : String) × (o.0 ≡ ok text) × (r ≡ content text))
        ⊎ ((e : GoError) × (o.0 ≡ err e) × (r ≡ failed e))
  reply_lem (ok text, s) r t h = inl (text, refl, cc)
  reply_lem (err e, s) r t h = inr (e, refl, cc)
  reply_lem (panic, s) r t h = cc

  with_bundle-content :
      (file : String) (p q : L.ProviderClient) (text : String) (s t : S)
      → Gives (with_bundle F L file p (content text)) s q t
      → text ≢ ""
  unfolding with_bundle
  with_bundle-content file p q text s t h x =
      let g = subst (λ y. Gives (with_bundle F L file p (content y)) s q t) x h in cc

  with_bundle-failed :
      (file : String) (p q : L.ProviderClient) (e : GoError) (s t : S)
      → Gives (with_bundle F L file p (failed e)) s q t
      → F.is_not_exist e ≡ true
  unfolding with_bundle
  with_bundle-failed file p q e s t h = elim (Bool-cases (F.is_not_exist e)) [
    | inl n ↦ n
    | inr n ↦ let g = rw n at h in cc
  ]

  read_bundle-BundleSeen :
      (file : String) (p q : L.ProviderClient) (s t : S)
      → Gives (read_bundle F L file p) s q t
      → BundleSeen file
  unfolding read_bundle
  read_bundle-BundleSeen file p q s t h =
      let (r, u, g, k) = Gives-bind (reply (F.read_file file)) (with_bundle F L file p) s q t h in
      elim (reply_lem (F.read_file file s) r u g) [
        | inl (text, a, b) ↦ (
          s,
          inl (
            text,
            a,
            with_bundle-content file p q text u t
                (subst (λ y. Gives (with_bundle F L file p y) u q t) b k),
          ),
        )
        | inr (e, a, b) ↦ (
          s,
          inr (
            e,
            a,
            with_bundle-failed file p q e u t
                (subst (λ y. Gives (with_bundle F L file p y) u q t) b k),
          ),
        )
      ]

  found_section-some :
      {A : Type 0} (o : Option A) (c : A) (s t : S) → Gives (found_section o) s c t → o ≡ some c
  found_section-some none c s t h = cc
  found_section-some (some d) c s t h = cc

  read_cloud-seen :
      (file : String) (c : CloudSection L.AuthSettings) (s t : S)
      → Gives (read_cloud F L file) s c t
      → (text : String) × (sections : List (String × CloudSection L.AuthSettings)) × ((F.read_file
            file s).0
          ≡ ok text)
        × (L.unmarshal text ≡ ok sections)
        × (section_of sections "openstack" ≡ some c)
  unfolding read_cloud
  read_cloud-seen file c s t h =
      let (text, s1, g1, h1) = Gives-bind (on_error (F.read_file file) _) _ s c t h in
      let (sections, s2, g2, h2) = Gives-bind (on_error (lift (L.unmarshal text)) _) _ s1 c t h1 in
      (
        text,
        sections,
        ap (λ x. x.0) (Gives-on_error (F.read_file file) _ s text s1 g1),
        ap (λ x. x.0) (Gives-on_error (lift (L.unmarshal text)) _ s1 sections s2 g2),
        found_section-some (section_of sections "openstack") c s2 t h2,
      )

  allow_reauth-some :
      (c d : CloudSection L.AuthSettings) (s t : S)
      → Gives (allow_reauth F L c) s d t
      → (a : AuthInfo L.AuthSettings) × (c.auth_info ≡ some a)
  unfolding allow_reauth
  allow_reauth-some c d s t h =
      let (a, u, g, k) = Gives-bind (deref c.auth_info) _ s d t h in
      (a, (Gives-deref c.auth_info s a u g).0)

  -- If the credentials of OpenStack are set up, then clouds.yaml was read and its section `openstack`
  -- has an `auth`, and the bundle of certificates was read: it is not an empty text, or it is missing.
  pub init_credentials-seen :
      (cfg : CloudProviderConfig) (c : ServiceClients L.ServiceClient) (s : S)
      → (init_credentials F L cfg s).0 ≡ ok c
      → CloudSeen (F.join cfg.credential_dir "clouds.yaml")
        × BundleSeen (F.join cfg.config_dir "ca-bundle.pem")
  unfolding init_credentials
  init_credentials-seen cfg c s h =
      let (z, g) = gives (init_credentials F L cfg) s c h in
      let (section, s1, g1, h1) =
        Gives-bind (read_cloud F L (F.join cfg.credential_dir "clouds.yaml")) _ s c z g in
      let (cloud, s2, g2, h2) = Gives-bind (allow_reauth F L section) _ s1 c z h1 in
      let (opts, s3, g3, h3) = Gives-bind (L.auth_options cloud) _ s2 c z h2 in
      let (client, s4, g4, h4) = Gives-bind (L.new_client (L.identity_endpoint opts)) _ s3 c z h3 in
      let (trusting, s5, g5, h5) =
        Gives-bind (read_bundle F L (F.join cfg.config_dir "ca-bundle.pem") client) _ s4 c z h4 in
      let (text, sections, a, b, e) = read_cloud-seen _ section s s1 g1 in
      let (auth, d) = allow_reauth-some section cloud s1 s2 g2 in
      (
        (s, text, sections, section, auth, a, b, e, d),
        read_bundle-BundleSeen _ client trusting s4 s5 g5,
      )
