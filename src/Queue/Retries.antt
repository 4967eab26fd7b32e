-- ===== src/Queue/Retries.antt =====
-- The retries of `processNextWorkItem`.
use cloud_network_config_con.Base.{
  String, Option, none, some, Bool, true, false, ℕ, suc, leb, ◌≡◌, ◌∙◌, ◌↔◌, ◌≤◌, ◌<◌, arith, subst,
}
use cloud_network_config_con.Effect.{GoError, Result, ok, err, panic, M}
use cloud_network_config_con.Queue.{
  Item, key, WorkQueue, max_retries, after_sync, finished, process_taken, process_next_work_item,
}

module _ {S : Type 0} (Q : WorkQueue S) (name : String) (sync : String → M S (Unit {0})) where
  -- `processNextWorkItem` gives false, which ends the loop of a worker, just when the queue has
  -- been shut down.
  pub process_next_work_item-ends :
      (s : S) → ((process_next_work_item Q name sync s).0 ≡ ok false) ↔ ((Q.get s).0 ≡ none)
  unfolding process_next_work_item
  process_next_work_item-ends s = ground arith

  -- What the queue promises of the key `k`, and that the handler does not touch the queue. The key
  -- is scheduled when it waits in the queue or for its delay to pass.
  pub record Limiter (k : String) : Type 0 where
    pub scheduled : S → Bool
    pub counted :
        (s : S)
        → Q.num_requeues (key k) (Q.add_rate_limited (key k) s) ≡ suc (Q.num_requeues (key k) s)
    pub delayed : (s : S) → scheduled (Q.add_rate_limited (key k) s) ≡ true
    pub forgotten : (s : S) → Q.num_requeues (key k) (Q.forget (key k) s) ≡ 0
    pub forget_keeps : (s : S) → scheduled (Q.forget (key k) s) ≡ scheduled s
    pub done_counts : (s : S) → Q.num_requeues (key k) (Q.done (key k) s) ≡ Q.num_requeues (key k) s
    pub done_keeps : (s : S) → scheduled (Q.done (key k) s) ≡ scheduled s
    pub get_counts : (s : S) → Q.num_requeues (key k) (Q.get s).1 ≡ Q.num_requeues (key k) s
    pub get_takes : (s : S) → (Q.get s).0 ≡ some (key k) → scheduled (Q.get s).1 ≡ false
    pub sync_counts : (s : S) → Q.num_requeues (key k) (sync k s).1 ≡ Q.num_requeues (key k) s
    pub sync_keeps : (s : S) → scheduled (sync k s).1 ≡ scheduled s

module _ {S : Type 0} {Q : WorkQueue S} {name : String} {sync : String → M S (Unit {0})}
    {k : String} (L : Limiter Q name sync k) where
  worked : S → S
  worked s = (process_next_work_item Q name sync s).1

  -- A run of attempts on the key, among which the queue may serve other keys.
  pub data Attempts (s : S) : ℕ → S → Type 0 where
    start : Attempts s 0 s
    attempt :
        {n : ℕ} {t : S}
        → Attempts s n t
        → (Q.get t).0 ≡ some (key k)
        → Attempts s (suc n) (process_next_work_item Q name sync t).1
    other :
        {n : ℕ} {t u : S}
        → Attempts s n t
        → Q.num_requeues (key k) u ≡ Q.num_requeues (key k) t
        → L.scheduled u ≡ L.scheduled t
        → Attempts s n u

  -- The key has been requeued, with the number of its failures, or it has been dropped.
  pub IsRequeued : ℕ → S → Type 0
  IsRequeued n t = (Q.num_requeues (key k) t ≡ n) × (L.scheduled t ≡ true)

  pub IsDropped : S → Type 0
  IsDropped t = (Q.num_requeues (key k) t ≡ 0) × (L.scheduled t ≡ false)

  failed :
      (t : S) (o : Result (Unit {0}) × S) (e : GoError)
      → o.0 ≡ err e
      → (Q.num_requeues (key k) o.1 ≤ 15
          → IsRequeued
              (suc (Q.num_requeues (key k) o.1))
              (finished Q name sync (key k) (after_sync Q name sync k o)).1)
        × (15 < Q.num_requeues (key k) o.1
            → L.scheduled o.1 ≡ false
            → IsDropped (finished Q name sync (key k) (after_sync Q name sync k o)).1)
  unfolding IsRequeued IsDropped
  failed t (ok a, s) e h = cc
  failed t (panic, s) e h = cc
  failed t (err x, s) e h = (
    λ few. rw (few_lem few) (L.done_counts _ ∙ L.counted s, L.done_keeps _ ∙ L.delayed s),
    λ many off.
        rw (many_lem many)
          (L.done_counts _ ∙ L.forgotten s, L.done_keeps _ ∙ L.forget_keeps s ∙ off),
  )
    where
      few_lem : Q.num_requeues (key k) s ≤ 15 → leb (Q.num_requeues (key k) s) max_retries ≡ true
      few_lem h = ground arith

      many_lem : 15 < Q.num_requeues (key k) s → leb (Q.num_requeues (key k) s) max_retries ≡ false
      many_lem h = ground arith

  taken :
      (p : Option Item × S)
      → p.0 ≡ some (key k)
      → (process_taken Q name sync p)
        ≡ finished Q name sync (key k) (after_sync Q name sync k (sync k p.1))
  taken (some i, s) h = ground arith
  taken (none, s) h = cc

  -- One attempt on a key that fails.
  attempt_lem :
      ((s : S) → (e : GoError) × ((sync k s).0 ≡ err e))
      → (t : S) → (Q.get t).0 ≡ some (key k)
      → (Q.num_requeues (key k) t ≤ 15 → IsRequeued (suc (Q.num_requeues (key k) t)) (worked t))
        × (15 < Q.num_requeues (key k) t → IsDropped (worked t))
  unfolding worked process_next_work_item
  attempt_lem fails t h =
      rw (worked, taken (Q.get t) h)
        (let u = (Q.get t).1 in
          let same = L.sync_counts u ∙ L.get_counts t in
          let step = failed t (sync k u) (fails u).0 (fails u).1 in
          (
            λ few.
                subst
                  (λ n.
                    n ≤ 15
                    → IsRequeued (suc n)
                        (finished Q name sync (key k) (after_sync Q name sync k (sync k u))).1)
                  same step.0 few,
            λ many.
                subst
                  (λ n.
                    15 < n
                    → L.scheduled (sync k u).1 ≡ false
                    → IsDropped
                        (finished Q name sync (key k) (after_sync Q name sync k (sync k u))).1)
                  same step.1 many (L.sync_keeps u ∙ L.get_takes t h),
          ))

  -- Where a run of failing attempts stands.
  pub Stage : ℕ → S → Type 0
  Stage n t =
      (n ≤ 16 → Q.num_requeues (key k) t ≡ n)
      × (0 < n → n ≤ 16 → L.scheduled t ≡ true)
      × (n ≡ 17 → IsDropped t)

  -- Over a queue that counts as `Limiter` says and a handler that does not touch it, a key that
  -- fails at every attempt and starts without failures is requeued by each of the first 16
  -- attempts, which are counted, and the 17th drops it: it is scheduled no more and its count is 0,
  -- whatever happens to other keys in between.
  pub Attempts-Stage :
      ((s : S) → (e : GoError) × ((sync k s).0 ≡ err e))
      → {s t : S} {n : ℕ} → Q.num_requeues (key k) s ≡ 0
      → Attempts s n t
      → Stage n t
  unfolding Stage IsDropped IsRequeued worked
  Attempts-Stage fails zero start = (λ _. zero, λ a b. ground arith, λ h. ground arith)
  Attempts-Stage fails zero (other r c o) =
      let before = Attempts-Stage fails zero r in
      (λ h. c ∙ before.0 h, λ a b. o ∙ before.1 a b, λ h. (c ∙ (before.2 h).0, o ∙ (before.2 h).1))
  Attempts-Stage fails zero (attempt {n = n} {t = t} r h) =
      let before = Attempts-Stage fails zero r in
      let step = attempt_lem fails t h in
      (
        λ few. ground (arith, before.0, step.0),
        λ _ few. ground (arith, before.0, step.0),
        λ last. ground (arith, before.0, step.1),
      )
