-- ===== src/OpenStack/Cleared.antt =====
-- Ports from which an address is taken: after a release none of the server's ports has it.
use cloud_network_config_con.Base.{
  String, List, [], ◌∷◌, Option, true, false, ◌==◌, string_eq, ◌≡◌, sym, ◌∙◌, inl, inr, any,
  any-keep-not, arith, eq_iff, Bool-cases, ne_of_beq,
}
use cloud_network_config_con.Effect.{Result, ok, M, ◌>>=◌, on_error}
use cloud_network_config_con.Effect.Ensures.{Ensures, bind_rule, on_error_rule, Outcome-intro}
use cloud_network_config_con.Effect.Retry.{Runs-rule}
use cloud_network_config_con.Effect.Steps.{Steps, Steps-Ensures}
use cloud_network_config_con.Cloud.{Net}
use cloud_network_config_con.OpenStack.{
  Port, Neutron, UpdateOpts, is_allowed, pairs_allow, list_server_ports, all_pages,
}
use cloud_network_config_con.OpenStack.Pairs.{
  update_pairs, without_pair, as_conflict, unallow_latest, unallow_on_port,
}
use cloud_network_config_con.OpenStack.Store.{Store, shows, server_opts}
use cloud_network_config_con.OpenStack.Quiet.{Same}

module _ {N : Net} {S : Type 0} {E : Neutron S} {ip : Option N.Addr} (X : Store N E ip)
    (server : String) where
  -- The ports of the server that have the address are all shown by the list that is left to go through.
  unfoldable pub Left : List Port → S → Type 0
  Left ps s =
      (q : String) → X.attached server q ≡ true → X.allows s q ≡ true → shows N ip ps q ≡ true

  pub Left-stable : (ps : List Port) (s t : S) → Same X s t → Left ps s → Left ps t
  unfolding Left Same
  Left-stable ps s t h l q a e = l q a (sym (h q) ∙ e)

  -- A call that leaves the allowed pairs alone.
  pub quiet_rule :
      {A : Type 0} (ps : List Port) (m : M S A)
      → Steps (Same X) m
      → Ensures (Left ps) m (λ _. Left ps) (Left ps)
  quiet_rule ps m h = Steps-Ensures (Same X) (Left ps) m (Left-stable ps) h

  without_lem : (p : Port) → pairs_allow N ip (without_pair N ip p.allowed_address_pairs) ≡ false
  without_lem p = any-keep-not _ p.allowed_address_pairs

  update_clears :
      (p l : Port) (ps : List Port)
      → l.id ≡ p.id
      → Ensures
          (Left (p ∷ ps))
          (update_pairs N E l (without_pair N ip l.allowed_address_pairs))
          (λ _. Left ps)
          (Left (p ∷ ps))
  unfolding update_pairs Left
  update_clears p l ps same =
      bind_rule (Left (p ∷ ps)) (Left (p ∷ ps)) (λ _. Left ps) (λ _. Left ps)
        (on_error (E.update_port l.id opts) (as_conflict N E)) _
        (on_error_rule (Left (p ∷ ps)) (Left (p ∷ ps)) (λ _. Left ps) (E.update_port l.id opts)
          (as_conflict N E)
          (λ s left.
            Outcome-intro (λ _. Left ps) (Left (p ∷ ps)) (E.update_port l.id opts s)
              (λ r e. written s left e) (kept s left)))
        (λ _ t h. h)
    where
      opts : UpdateOpts
      opts = record {
        allowed_address_pairs = without_pair N ip l.allowed_address_pairs;
        revision_number = l.revision_number;
      }

      written :
          (s : S)
          → Left (p ∷ ps) s
          → {r : Port} → (E.update_port l.id opts s).0 ≡ ok r
          → Left ps (E.update_port l.id opts s).1
      written s left e q a al = elim (Bool-cases (q == l.id)) [
        | inl h ↦ ground (arith, eq_iff q l.id, X.update_writes l.id opts s e, without_lem l)
        | inr h ↦ ground (
          arith,
          eq_iff p.id q,
          eq_iff q l.id,
          X.update_others l.id opts s q (ne_of_beq q l.id h),
          left q a,
        )
      ]

      kept : (s : S) → Left (p ∷ ps) s → Left (p ∷ ps) (E.update_port l.id opts s).1
      kept s left q a al = elim (Bool-cases (q == l.id)) [
        | inl h ↦ ground (arith, eq_iff q l.id, X.update_keeps l.id opts s, without_lem l, left q a)
        | inr h ↦ left q a (sym (X.update_others l.id opts s q (ne_of_beq q l.id h)) ∙ al)
      ]

  latest_clears :
      (p l : Port) (ps : List Port)
      → l.id ≡ p.id
      → Ensures (Left (p ∷ ps)) (unallow_latest N E ip l) (λ _. Left ps) (Left (p ∷ ps))
  unfolding unallow_latest
  latest_clears p l ps same = elim (Bool-cases (is_allowed N l ip)) [
    | inl h ↦ rw h (update_clears p l ps same)
    | inr h ↦ rw h (λ s left. left)
  ]

  pub unallow_rule :
      (p : Port) (ps : List Port)
      → Ensures (Left (p ∷ ps)) (unallow_on_port N E p.id ip) (λ _. Left ps) (Left (p ∷ ps))
  unfolding unallow_on_port Same
  unallow_rule p ps s left =
      Runs-rule (Left (p ∷ ps)) (λ _. Left ps) (E.get_port p.id >>= unallow_latest N E ip)
        (bind_rule (Left (p ∷ ps)) (Left (p ∷ ps)) (λ l t. (l.id ≡ p.id) × Left (p ∷ ps) t)
          (λ _. Left ps) (E.get_port p.id) (unallow_latest N E ip)
          (λ t h.
            Outcome-intro (λ l u. (l.id ≡ p.id) × Left (p ∷ ps) u) (Left (p ∷ ps))
              (E.get_port p.id t) (λ l e. ((X.get_reads p.id t e).0, read t h)) (read t h))
          (λ l t (same, h). latest_clears p l ps same t h))
        (X.retry_runs (E.get_port p.id >>= unallow_latest N E ip) s) left
    where
      read : (t : S) → Left (p ∷ ps) t → Left (p ∷ ps) (E.get_port p.id t).1
      read t h = Left-stable (p ∷ ps) t (E.get_port p.id t).1 (X.get_keeps p.id t) h

  -- A port that the list shows without the address can be passed over.
  pub Left-skip :
      (p : Port) (ps : List Port) (s : S) → is_allowed N p ip ≡ false → Left (p ∷ ps) s → Left ps s
  unfolding Left is_allowed
  Left-skip p ps s h left q a e = ground (arith, left q a e, h)

  abbrev pub Cleared : S → Type 0
  Cleared s = (q : String) → X.attached server q ≡ true → X.allows s q ≡ false

  pub Left-Cleared : (s : S) → Left [] s → Cleared s
  unfolding Left
  Left-Cleared s left q a = elim (Bool-cases (X.allows s q)) [ inl e ↦ cc (left q a e) | inr e ↦ e ]

  -- The list of ports when it is read.
  unfoldable pub Attached : List Port → Type 0
  Attached ps = (q : String) → any (λ p. p.id == q) ps ≡ true → X.attached server q ≡ true

  pub list_rule :
      Ensures
        (λ _. Unit {0})
        (list_server_ports E server)
        (λ ps s. Left ps s × Attached ps)
        (λ _. Unit {0})
  unfolding list_server_ports Left Attached
  list_rule = elim (Bool-cases (E.is_uuid server)) [
    | inl h ↦ rw h (
        bind_rule (λ _. Unit {0}) (λ _. Unit {0}) Listed (λ ps s. Left ps s × Attached ps)
          (E.list_ports (server_opts server)) _
          (λ s u.
            Outcome-intro Listed (λ _. Unit {0}) (E.list_ports (server_opts server) s)
              (λ pages e ps h. X.list_attached server s e h) tt)
          (λ pages s listed.
            Outcome-intro (λ ps s. Left ps s × Attached ps) (λ _. Unit {0}) (all_pages pages, s)
              (λ ps h. listed ps h) tt))
    | inr h ↦ rw h (λ s u. tt)
  ]
    where
      Listed : List (Result (List Port)) → S → Type 0
      Listed pages s = (ps : List Port) → all_pages pages ≡ ok ps → Left ps s × Attached ps
