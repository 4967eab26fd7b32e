-- ===== src/Queue/Worker.antt =====
-- `runWorker` of pkg/controller/controller.go, which ends when the work queue is shut down.
use cloud_network_config_con.Base.{
  String, Option, none, some, Bool, true, false, ℕ, zero, suc, ◌≤◌, ◌<◌, ◌≡◌, ◌≢◌, ◌⊎◌, inl, inr,
  refl, arith, leb, Bool-cases,
}
use cloud_network_config_con.Effect.{GoError, Result, ok, err, panic, M}
use cloud_network_config_con.Queue.{
  Item, key, invalid, WorkQueue, max_retries, after_sync, finished, process_taken,
  process_next_work_item,
}

-- Whether the loop goes on.
abbrev again :
    {S : Type 0} → M S (Option (Unit {0})) → Result Bool × S → Result (Option (Unit {0})) × S
again loop (ok true, s) = loop s
again loop (ok false, s) = (ok (some tt), s)
again loop (err e, s) = (err e, s)
again loop (panic, s) = (panic, s)

module _ {S : Type 0} (Q : WorkQueue S) (controller_key : String)
    (sync : String → M S (Unit {0})) where
  -- `runWorker`, with fuel; the answer is `none` when it does not suffice.
  unfoldable pub run_worker : ℕ → M S (Option (Unit {0}))
  run_worker zero s = (ok none, s)
  run_worker (suc n) s = again (run_worker n) (process_next_work_item Q controller_key sync s)

  -- What a queue promises that has been shut down: every item that is taken leaves one less, and
  -- nothing is added, also not by the handler and its retries; and the handler does not panic.
  pub record IsShutDown : Type 0 where
    pub remaining : S → ℕ
    pub takes : (s t : S) (i : Item) → Q.get s ≡ (some i, t) → remaining t < remaining s
    pub dones : (i : Item) (s : S) → remaining (Q.done i s) ≤ remaining s
    pub forgets : (i : Item) (s : S) → remaining (Q.forget i s) ≤ remaining s
    pub requeues : (i : Item) (s : S) → remaining (Q.add_rate_limited i s) ≤ remaining s
    pub syncs : (k : String) (s : S) → remaining (sync k s).1 ≤ remaining s
    pub answers : (k : String) (s : S) → (sync k s).0 ≢ panic

  module _ (D : IsShutDown) where
    abbrev Done : Item → Result (Option GoError) × S → ℕ → Type 0
    Done i o n = (t : S) × (finished Q controller_key sync i o ≡ (ok true, t)) × (D.remaining t ≤ n)

    after_sync_lem :
        (k : String) (o : Result (Unit {0}) × S) (n : ℕ)
        → o.0 ≢ panic
        → D.remaining o.1 ≤ n
        → Done (key k) (after_sync Q controller_key sync k o) n
    after_sync_lem k (ok x, s) n h l = (
      Q.done (key k) (Q.forget (key k) s),
      refl,
      ground (arith, l, D.dones (key k) (Q.forget (key k) s), D.forgets (key k) s),
    )
    after_sync_lem k (err e, s) n h l =
        elim (Bool-cases (leb (Q.num_requeues (key k) s) max_retries)) [
          | inl b ↦ rw b (
            Q.done (key k) (Q.add_rate_limited (key k) s),
            refl,
            ground (arith, l, D.dones (key k) (Q.add_rate_limited (key k) s), D.requeues (key k) s),
          )
          | inr b ↦ rw b (
            Q.done (key k) (Q.forget (key k) s),
            refl,
            ground (arith, l, D.dones (key k) (Q.forget (key k) s), D.forgets (key k) s),
          )
        ]
    after_sync_lem k (panic, s) n h l = elim (h refl) [ ]

    -- A turn ends the loop, or goes on with fewer items.
    Turned : S → Type 0
    Turned s =
        ((t : S) × (process_next_work_item Q controller_key sync s ≡ (ok false, t)))
        ⊎ ((t : S) × (process_next_work_item Q controller_key sync s ≡ (ok true, t))
            × (D.remaining t < D.remaining s))

    taken_lem :
        (s : S) (o : Option Item × S)
        → Q.get s ≡ o
        → ((t : S) × (process_taken Q controller_key sync o ≡ (ok false, t)))
          ⊎ ((t : S) × (process_taken Q controller_key sync o ≡ (ok true, t))
              × (D.remaining t < D.remaining s))
    taken_lem s (none, t) e = inl (t, refl)
    taken_lem s (some (invalid text), t) e = inr (
      Q.done (invalid text) (Q.forget (invalid text) t),
      refl,
      ground (
        arith,
        D.takes s t (invalid text) e,
        D.dones (invalid text) (Q.forget (invalid text) t),
        D.forgets (invalid text) t,
      ),
    )
    taken_lem s (some (key k), t) e =
        let (u, f, l) = after_sync_lem k (sync k t) (D.remaining t) (D.answers k t) (D.syncs k t) in
        inr (u, f, ground (arith, l, D.takes s t (key k) e))

    turned : (s : S) → Turned s
    unfolding process_next_work_item Turned
    turned s = taken_lem s (Q.get s) refl

    -- Where the queue is shut down and the handler answers, the loop of a worker ends, after as many
    -- turns as there are items left and one more.
    pub run_worker-ends : (n : ℕ) (s : S) → D.remaining s < n → (run_worker n s).0 ≡ ok (some tt)
    unfolding run_worker Turned
    run_worker-ends zero s h = ground (arith, h)
    run_worker-ends (suc n) s h = elim (turned s) [
      | inl (t, e) ↦ rw e refl
      | inr (t, e, l) ↦ rw e (run_worker-ends n t (ground (arith, l, h)))
    ]
