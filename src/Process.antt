-- ===== src/Process.antt =====
-- The process as a whole: `main` of cmd/cloud-network-config-controller/main.go, the handler of
-- signals of pkg/signals/signals.go, and `Run` of pkg/controller/controller.go. The goroutines
-- interleave, and the environment sends signals, rotates credentials and ends the leadership.
pub mod Invariant
pub mod Drain
pub mod Ending
pub mod Signals
pub mod Scenarios
use cloud_network_config_con.Base.{
  ℕ, zero, suc, ◌+◌, ◌<◌, List, [], ◌∷◌, ◌++◌, Option, none, some, Bool, true, false, ◌≡◌, min,
}
use cloud_network_config_con.Settings.{
  Settings, Controller, secret, config_map, Action, add, go, start_controllers,
}

-- The goroutine of `SetupSignalHandler`: before the first signal, after it, after it has closed the
-- stop channel, and after it has cancelled the context.
pub data Handler : Type 0 where
  awaiting_first closing cancelling awaiting_second : Handler

-- `main` when it makes its clients, and then `leaderelection.RunOrDie`: a candidate for the lease; its
-- holder; after the renewal of the lease has ended, or the lease was never held; and in
-- `OnStoppedLeading`, behind `ShutDown`.
pub data Election : Type 0 where
  connecting candidate leading ended waiting : Election

-- `Run` of a controller: before its caches are synced, with its workers busy with a number of items,
-- and after it has seen the stop channel closed, when it waits for them in `ShutDownWithDrain`.
pub data Phase : Type 0 where
  syncing : Phase
  serving draining : ℕ → Phase

pub record Live : Type 0 where
  pub controller : Controller
  pub phase : Phase

-- How the program ends: `main` returns; `os.Exit(1)` after a second signal; `klog.Exitf` after an error.
pub data Exit : Type 0 where
  finished second_signal fatal : Exit

-- `signals` counts those in the channel of the handler, `external` those that the environment has
-- sent. `to_start` is what is left of `OnStartedLeading`, and `wait_group` the counter of `wg`.
pub record Process : Type 0 where
  pub signals : ℕ
  pub external : ℕ
  pub handler : Handler
  pub stop_closed : Bool
  pub cancelled : Bool
  pub election : Election
  pub holds_lease : Bool
  pub to_start : List Action
  pub wait_group : ℕ
  pub live : List Live
  pub exit : Option Exit

abbrev pub initial : Process
initial = record {
  signals = 0;
  external = 0;
  handler = awaiting_first;
  stop_closed = false;
  cancelled = false;
  election = connecting;
  holds_lease = false;
  to_start = [];
  wait_group = 0;
  live = [];
  exit = none;
}

-- `defaultWorkerThreadiness`
abbrev pub threadiness : ℕ
threadiness = 10

-- A signal is put into the channel, which has room for two; `signal.Notify` drops what finds no room.
abbrev pub deliver : ℕ → ℕ
deliver n = min 2 (suc n)

-- A step of one controller. A worker takes an item and gives it back; when `Run` stops, there are
-- items that are being processed and others that wait, and `ShutDownWithDrain` of the work queue
-- promises to wait for all of them. The return of `Run` is apart.
pub data Turn (stop_closed : Bool) : Phase → Phase → Type 0 where
  synced : Turn stop_closed syncing (serving 0)
  take : (n : ℕ) → n < threadiness → Turn stop_closed (serving n) (serving (suc n))
  done : (n : ℕ) → Turn stop_closed (serving (suc n)) (serving n)
  stop : (n m : ℕ) → stop_closed ≡ true → Turn stop_closed (serving n) (draining (n + m))
  drain : (n : ℕ) → Turn stop_closed (draining (suc n)) (draining n)

-- The controllers whose handler cancels the context.
pub data Rotates : Controller → Type 0 where
  secret_rotates : Rotates secret
  config_map_rotates : Rotates config_map

pub data Step (c : Settings) (s : Process) : Process → Type 0 where
  -- The environment sends SIGTERM or SIGINT.
  signal : Step c s (record s { signals = deliver s.signals; external = suc s.external })
  receive_first :
      (n : ℕ)
      → s.handler ≡ awaiting_first
      → s.signals ≡ suc n
      → Step c s (record s { signals = n; handler = closing })
  close_stop :
      s.handler ≡ closing → Step c s (record s { stop_closed = true; handler = cancelling })
  cancel :
      s.handler ≡ cancelling → Step c s (record s { cancelled = true; handler = awaiting_second })
  receive_second :
      (n : ℕ)
      → s.handler ≡ awaiting_second
      → s.signals ≡ suc n
      → Step c s (record s { signals = n; exit = some second_signal })
  -- The clients and the lock are made, or one of them cannot be made.
  connect : s.election ≡ connecting → Step c s (record s { election = candidate })
  connect_fails : s.election ≡ connecting → Step c s (record s { exit = some fatal })
  acquire :
      s.election ≡ candidate
      → s.cancelled ≡ false
      → Step c s
          (record s { election = leading; holds_lease = true; to_start = start_controllers c })
  give_up : s.election ≡ candidate → s.cancelled ≡ true → Step c s (record s { election = ended })
  -- The lease is lost, or it is given up since the context is cancelled.
  stop_leading :
      s.election ≡ leading → Step c s (record s { election = ended; holds_lease = false })
  -- `signals.ShutDown()`
  shut_down :
      s.election ≡ ended → Step c s (record s { election = waiting; signals = deliver s.signals })
  -- `wg.Wait()` returns, and `main` after it.
  finish : s.election ≡ waiting → s.wait_group ≡ 0 → Step c s (record s { exit = some finished })
  -- A client cannot be made.
  start_fails : s.to_start ≡ start_controllers c → Step c s (record s { exit = some fatal })
  start_add :
      (rest : List Action)
      → s.to_start ≡ add ∷ rest
      → Step c s (record s { to_start = rest; wait_group = suc s.wait_group })
  start_go :
      (k : Controller) (rest : List Action)
      → s.to_start ≡ go k ∷ rest
      → Step c s (record s {
        to_start = rest;
        live = (record { controller = k; phase = syncing }) ∷ s.live;
      })
  turn :
      (before after : List Live) (k : Controller) {p q : Phase}
      → s.live ≡ before ++ ((record { controller = k; phase = p }) ∷ after)
      → Turn s.stop_closed p q
      → Step c s (record s { live = before ++ ((record { controller = k; phase = q }) ∷ after) })
  -- The caches are not synced when the stop channel is closed, and `Run` gives an error.
  sync_fails :
      (before after : List Live) (k : Controller)
      → s.live ≡ before ++ ((record { controller = k; phase = syncing }) ∷ after)
      → s.stop_closed ≡ true
      → Step c s (record s { exit = some fatal })
  -- `Run` returns when no item is left, and `wg.Done()` is called.
  return :
      (before after : List Live) (k : Controller) (n : ℕ)
      → s.live ≡ before ++ ((record { controller = k; phase = draining 0 }) ∷ after)
      → s.wait_group ≡ suc n
      → Step c s (record s { live = before ++ after; wait_group = n })
  -- A worker runs the handler of a secret or a config map.
  rotate :
      (before after : List Live) (k : Controller) (n : ℕ)
      → s.live ≡ before ++ ((record { controller = k; phase = serving (suc n) }) ∷ after)
      → Rotates k
      → Step c s (record s { cancelled = true })

-- The states that the program comes to before it ends, and the one in which it has ended.
pub data Reach (c : Settings) : Process → Type 0 where
  start : Reach c initial
  next : {s t : Process} → Reach c s → s.exit ≡ none → Step c s t → Reach c t

-- The second state comes after the first one, by steps before the program has ended.
pub data Later (c : Settings) : Process → Process → Type 0 where
  here : (s : Process) → Later c s s
  step : {s u t : Process} → s.exit ≡ none → Step c s u → Later c u t → Later c s t
