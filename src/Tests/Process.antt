-- ===== src/Tests/Process.antt =====
-- Runs of the process: a leader with a busy worker, told to stop by the environment or by a rotation.
use cloud_network_config_con.Base.{
  ◌≤◌, List, [], ◌∷◌, none, some, true, false, ◌≡◌, refl, arith, length,
}
use cloud_network_config_con.Settings.{
  defaults, Controller, secret, cloud_private_ip_config, node, start_controllers,
}
use cloud_network_config_con.Process.{
  Process, Live, Phase, syncing, serving, finished, second_signal, awaiting_first, awaiting_second,
  leading, waiting, synced, take, secret_rotates, acquire, connect, signal, receive_first,
  close_stop, cancel, stop_leading, shut_down, receive_second, start_add, start_go, turn, Step,
  Later, Reach, start, next,
}
use cloud_network_config_con.Process.Invariant.{Reach-waits}
use cloud_network_config_con.Process.Signals.{Reach-second_signal}
use cloud_network_config_con.Process.Drain.{rotate-finished}
use cloud_network_config_con.Process.Scenarios.{Later-cut_off}

abbrev at : Controller → Phase → Live
at k p = record { controller = k; phase = p }

-- A leader whose controllers are `ls`.
abbrev led : List Live → Process
led ls = record {
  signals = 0;
  external = 0;
  handler = awaiting_first;
  stop_closed = false;
  cancelled = false;
  election = leading;
  holds_lease = true;
  to_start = [];
  wait_group = 3;
  live = ls;
  exit = none;
}

started :
    Reach defaults
      (led (at node syncing ∷ at cloud_private_ip_config syncing ∷ at secret syncing ∷ []))
unfolding start_controllers
started =
    let r = next start refl (connect refl) in
    let r0 = next r refl (acquire refl refl) in
    let r1 = next r0 refl (start_add _ refl) in
    let r2 = next r1 refl (start_go secret _ refl) in
    let r3 = next r2 refl (start_add _ refl) in
    let r4 = next r3 refl (start_go cloud_private_ip_config _ refl) in
    let r5 = next r4 refl (start_add _ refl) in next r5 refl (start_go node _ refl)

-- A worker processes an IP address, and another the secret.
abbrev busy : List Live
busy = at node syncing ∷ at cloud_private_ip_config (serving 1) ∷ at secret (serving 1) ∷ []

abbrev before_secret : List Live
before_secret = at node syncing ∷ at cloud_private_ip_config (serving 1) ∷ []

busy-Reach : Reach defaults (led busy)
busy-Reach =
    let nodes = at node syncing ∷ [] in
    let secrets = at secret syncing ∷ [] in
    let r1 = next started refl (turn nodes secrets cloud_private_ip_config refl synced) in
    let r2 =
      next r1 refl (turn nodes secrets cloud_private_ip_config refl (take 0 (omega arith))) in
    let r3 = next r2 refl (turn before_secret [] secret refl synced) in
    next r3 refl (turn before_secret [] secret refl (take 0 (omega arith)))

abbrev told : Process
told = record (led busy) { signals = 1; external = 1 }

told-Reach : Reach defaults told
told-Reach = next busy-Reach refl signal

Reach-waits_example :
    (length told.live ≤ told.wait_group) × (told.exit ≡ some finished → told.live ≡ [])
Reach-waits_example = Reach-waits defaults told-Reach

Later-cut_off_example :
    (t u : Process) × Later defaults told t
    × (t.exit ≡ none)
    × (t.holds_lease ≡ false)
    × (t.live ≡ busy)
    × Later defaults t u
    × (u.exit ≡ some second_signal)
    × (u.external ≡ 1)
    × (u.live ≡ busy)
Later-cut_off_example = Later-cut_off defaults 0 refl refl refl refl

abbrev cut_off : Process
cut_off = record told {
  signals = 0;
  handler = awaiting_second;
  stop_closed = true;
  cancelled = true;
  election = waiting;
  holds_lease = false;
  exit = some second_signal;
}

cut_off-Reach : Reach defaults cut_off
cut_off-Reach =
    let r1 = next told-Reach refl (receive_first 0 refl refl) in
    let r2 = next r1 refl (close_stop refl) in
    let r3 = next r2 refl (cancel refl) in
    let r4 = next r3 refl (stop_leading refl) in
    let r5 = next r4 refl (shut_down refl) in next r5 refl (receive_second 0 refl refl)

Reach-second_signal_example : 1 ≤ cut_off.external
Reach-second_signal_example = Reach-second_signal defaults cut_off-Reach refl

rotate-finished_example :
    Step defaults (led busy) (record (led busy) { cancelled = true })
    × (t : Process) × Later defaults (record (led busy) { cancelled = true }) t
    × (t.exit ≡ some finished)
    × (t.external ≡ 0)
    × (t.live ≡ [])
rotate-finished_example =
    rotate-finished defaults before_secret [] secret 0 busy-Reach refl refl refl refl refl refl
      secret_rotates
