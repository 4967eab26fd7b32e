-- ===== src/Tests/Queue.antt =====
-- The queue's theorems at a queue for one key, and at concrete objects.
use cloud_network_config_con.Base.{
  List, ◌∷◌, length, ◌<◌, ap, String, none, some, Bool, true, false, ℕ, suc, ◌≡◌, ◌≢◌, refl, arith,
  ne_of_beq, if◌then◌else◌,
}
use cloud_network_config_con.Effect.{errorf, api, not_found, Result, ok, err, M}
use cloud_network_config_con.Base.{[]}
use cloud_network_config_con.Queue.{
  Item, key, WorkQueue, Object, typed, tombstone, process_next_work_item, enqueue,
}
use cloud_network_config_con.Queue.Retries.{
  Limiter, Attempts, start, attempt, Stage, Attempts-Stage,
}
use cloud_network_config_con.Queue.Worker.{run_worker, IsShutDown, run_worker-ends}
use cloud_network_config_con.Queue.Enqueued.{enqueue-tombstone}

-- Whether the key is scheduled, and the number of its requeues.
pub record Line : Type 0 where
  pub waiting : Bool
  pub requeues : ℕ

abbrev pub line_queue : WorkQueue Line
line_queue = record {
  get = λ s. if s.waiting then (some (key "k"), record s { waiting = false }) else (none, s);
  done = λ i s. s;
  add = λ i s. record s { waiting = true };
  forget = λ i s. record s { requeues = 0 };
  num_requeues = λ i s. s.requeues;
  add_rate_limited = λ i s. record { waiting = true; requeues = suc s.requeues };
}

abbrev refuse : String → M Line (Unit {0})
refuse k s = (err (api not_found), s)

abbrev limiter : Limiter line_queue "q" refuse "k"
limiter = record {
  scheduled = λ s. s.waiting;
  counted = λ s. refl;
  delayed = λ s. refl;
  forgotten = λ s. refl;
  forget_keeps = λ s. refl;
  done_counts = λ s. refl;
  done_keeps = λ s. refl;
  get_counts = λ s. ground arith;
  get_takes = λ s h. ground arith;
  sync_counts = λ s. refl;
  sync_keeps = λ s. refl;
}

abbrev pub queued : Line
queued = record { waiting = true; requeues = 0 }

step : Line → Line
step s = (process_next_work_item line_queue "q" refuse s).1

two_attempts : Attempts limiter queued 2 (step (step queued))
unfolding step process_next_work_item
two_attempts = attempt (attempt start refl) refl

Attempts-Stage_example : Stage limiter 2 (step (step queued))
Attempts-Stage_example =
    Attempts-Stage limiter (λ s. (api not_found, refl)) {s = queued} {t = step (step queued)}
      {n = 2} refl two_attempts

abbrev pub keys : Object → Result String
keys (typed t m) = ok m
keys (tombstone k o) = err (errorf "object has no meta" [])

enqueue-tombstone_example :
    (enqueue line_queue keys "Node" (typed "Node" "a") queued ≡ line_queue.add (key "a") queued)
    × ((u : String) → u ≢ "Node" → enqueue line_queue keys "Node" (typed u "a") queued ≡ queued)
    × (enqueue line_queue keys "Node" (tombstone "a" (typed "Node" "a")) queued ≡ queued)
enqueue-tombstone_example =
    enqueue-tombstone line_queue keys "Node"
      (ne_of_beq "Node" "cache.DeletedFinalStateUnknown" refl)
      (λ k o. (errorf "object has no meta" [], refl)) "a" "a" "a" (typed "Node" "a") queued refl

-- A queue that is shut down with some keys left in it, and a handler that fails.
abbrev left_queue : WorkQueue (List String)
left_queue = record {
  get = λ s. elim s [ [] ↦ (none, []) | k ∷ ks ↦ (some (key k), ks) ];
  done = λ i s. s;
  add = λ i s. s;
  forget = λ i s. s;
  num_requeues = λ i s. 0;
  add_rate_limited = λ i s. s;
}

abbrev fail : String → M (List String) (Unit {0})
fail k s = (err (api not_found), s)

left_takes : (s t : List String) (i : Item) → left_queue.get s ≡ (some i, t) → length t < length s
left_takes [] t i e = elim (none-some (ap (λ x. x.0) e)) [ ]
  where
    none-some : none ≡ some i → ⊥
    none-some h = cc
left_takes (k ∷ ks) t i e = ground (arith, ap length (ap (λ x. x.1) e))

left_IsShutDown : IsShutDown left_queue "q" fail
left_IsShutDown = record {
  remaining = length;
  takes = left_takes;
  dones = λ i s. ground arith;
  forgets = λ i s. ground arith;
  requeues = λ i s. ground arith;
  syncs = λ k s. ground arith;
  answers = λ k s h. cc;
}

fewer : left_IsShutDown.remaining ("a" ∷ "b" ∷ []) < 3
unfolding left_IsShutDown
fewer = ground arith

run_worker-ends_example : (run_worker left_queue "q" fail 3 ("a" ∷ "b" ∷ [])).0 ≡ ok (some tt)
run_worker-ends_example =
    run_worker-ends left_queue "q" fail left_IsShutDown 3 ("a" ∷ "b" ∷ []) fewer
