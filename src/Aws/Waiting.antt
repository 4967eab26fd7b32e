-- ===== src/Aws/Waiting.antt =====
-- A success of AWS means that the instance was read again and shows what was asked for.
use cloud_network_config_con.Base.{
  String, List, [], ◌∷◌, Option, none, some, Bool, true, not, any, all, contains, ◌≡◌, refl, arith,
  if◌then◌else◌,
}
use cloud_network_config_con.Effect.{Result, ok, err, panic, M, continue, lift}
use cloud_network_config_con.Effect.Ensures.{Anywhere, Outcome}
use cloud_network_config_con.Cloud.{Net, Node}
use cloud_network_config_con.Aws.{
  Interface, Instance, Ec2, first_interface, assigned_ips, addresses, compare_ips, fulfilled,
  get_instance, completed, wait_for_completion,
}

then_lift :
    {S A B : Type 0} (f : A → Result B) (b : B) (t : S) (o : Result A × S)
    → continue (λ a. lift (f a)) o ≡ (ok b, t)
    → (a : A) × (o ≡ (ok a, t)) × (f a ≡ ok b)
then_lift f b t (ok a, s) h = (a, ground arith, ground arith)
then_lift f b t (err e, s) h = cc
then_lift f b t (panic, s) h = cc

module _ (N : Net) where
  -- What the wait finds: the first interface and the addresses of the family of `sample` on it.
  pub record Reading (sample : String) (i : Instance) (holds : List String → Type 0) : Type 0 where
    pub interface : Interface
    pub first : first_interface i ≡ ok interface
    pub texts : List String
    pub listed : assigned_ips N (addresses N (N.is_ipv6_string sample) interface) ≡ ok texts
    pub verdict : holds texts

  abbrev pub Verdict : List String → Bool → List String → Type 0
  Verdict ips delete_op texts =
      (if delete_op then not (any (contains texts) ips) else all (contains texts) ips) ≡ true

  fulfilled-Reading :
      (s : String) (ss : List String) (delete_op : Bool) (i : Instance)
      → fulfilled N (s ∷ ss) delete_op i ≡ ok true
      → Reading s i (Verdict (s ∷ ss) delete_op)
  unfolding fulfilled
  fulfilled-Reading s ss delete_op i h = on_first i.network_interfaces refl
    where
      on_list :
          (n : Interface) (r : Result (List String))
          → first_interface i ≡ ok n
          → assigned_ips N (addresses N (N.is_ipv6_string s) n) ≡ r
          → compare_ips N (s ∷ ss) delete_op r ≡ ok true
          → Reading s i (Verdict (s ∷ ss) delete_op)
      on_list n (ok texts) f e c = record {
        interface = n;
        first = f;
        texts = texts;
        listed = e;
        verdict = ground arith;
      }
      on_list n (err e) f l c = cc
      on_list n panic f l c = cc

      on_first :
          (ns : List (Option Interface))
          → i.network_interfaces ≡ ns
          → Reading s i (Verdict (s ∷ ss) delete_op)
      on_first [] e = ground arith
      on_first (none ∷ ns) e = ground arith
      on_first (some n ∷ ns) e =
          on_list n (assigned_ips N (addresses N (N.is_ipv6_string s) n)) (ground arith) refl
            (ground arith)

-- `polls` is what `wait.PollImmediate` promises: it succeeds only with a run of the condition that
-- gave true, after which it does nothing.
module _ (N : Net) {S : Type 0} (E : Ec2 S)
    (polls : (m : M S Bool) (s : S)
      → (E.poll_immediate m s).0 ≡ ok tt
      → (u : S) × (m u ≡ (ok true, (E.poll_immediate m s).1))) where
  -- The last thing that happened before the world `t` was a read of the instance.
  pub record LastRead (node : Node) (s : String) (holds : List String → Type 0) (t : S)
      : Type 0 where
    pub before : S
    pub instance : Instance
    pub read : get_instance N E node before ≡ (ok instance, t)
    pub reading : Reading N s instance holds

  pub waited :
      (node : Node) (s : String) (ss : List String) (delete_op : Bool) (w : S)
      → Outcome
          (λ _ t. LastRead node s (Verdict N (s ∷ ss) delete_op) t)
          Anywhere
          (wait_for_completion N E node (s ∷ ss) delete_op w)
  unfolding wait_for_completion completed
  waited node s ss delete_op w =
      by_result (E.poll_immediate (completed N E node (s ∷ ss) delete_op) w)
        (polls (completed N E node (s ∷ ss) delete_op) w)
    where
      by_result :
          (o : Result (Unit {0}) × S)
          → (o.0 ≡ ok tt → (u : S) × (completed N E node (s ∷ ss) delete_op u ≡ (ok true, o.1)))
          → Outcome (λ _ t. LastRead node s (Verdict N (s ∷ ss) delete_op) t) Anywhere o
      by_result (ok tt, t) h =
          let (u, e) = h refl in
          let (i, read, done) =
            then_lift (fulfilled N (s ∷ ss) delete_op) true t (get_instance N E node u) e in
          record {
            before = u;
            instance = i;
            read = read;
            reading = fulfilled-Reading N s ss delete_op i done;
          }
      by_result (err e, t) h = tt
      by_result (panic, t) h = tt
