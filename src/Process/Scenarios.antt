-- ===== src/Process/Scenarios.antt =====
-- What the process may come to when a leader is told to stop: the two signals, and the lease.
use cloud_network_config_con.Base.{ℕ, zero, suc, none, some, false, ◌≡◌, refl, arith}
use cloud_network_config_con.Settings.{Settings}
use cloud_network_config_con.Process.{
  Process, second_signal, awaiting_first, leading, deliver, receive_first, close_stop, cancel,
  receive_second, stop_leading, shut_down, Later, here, step,
}

-- Some signal is pending after one has been delivered.
deliver-suc : (n : ℕ) → (k : ℕ) × (deliver n ≡ suc k)
deliver-suc zero = (0, refl)
deliver-suc (suc n) = (1, ground arith)

-- A process that leads and has got its first signal may come to a state in which it runs without the
-- lease, and from there to one in which a second signal has ended it, though the environment has sent
-- none in between: that signal is its own. In both the controllers are as they were, so that the items
-- which their workers process are not waited for.
pub Later-cut_off :
    (c : Settings) {s : Process} (n : ℕ)
    → s.exit ≡ none
    → s.election ≡ leading
    → s.handler ≡ awaiting_first
    → s.signals ≡ suc n
    → (t u : Process) × Later c s t
      × (t.exit ≡ none)
      × (t.holds_lease ≡ false)
      × (t.live ≡ s.live)
      × Later c t u
      × (u.exit ≡ some second_signal)
      × (u.external ≡ s.external)
      × (u.live ≡ s.live)
Later-cut_off c {s} n e l a b = (
  _,
  _,
  step e (receive_first n a b)
      (step e (close_stop refl) (step e (cancel refl) (step e (stop_leading l) (here _)))),
  e,
  refl,
  refl,
  step e (shut_down refl)
      (step e (receive_second (deliver-suc n).0 refl (deliver-suc n).1) (here _)),
  refl,
  refl,
  refl,
)
