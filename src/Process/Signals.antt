-- ===== src/Process/Signals.antt =====
-- Who has sent the signals that end the program.
use cloud_network_config_con.Base.{ℕ, suc, ◌+◌, ◌≤◌, none, some, ◌≡◌, ap, arith}
use cloud_network_config_con.Settings.{Settings}
use cloud_network_config_con.Process.{
  Process, second_signal, Handler, awaiting_first, closing, cancelling, awaiting_second, Election,
  connecting, connect, connect_fails, candidate, leading, ended, waiting, deliver, Step, signal,
  receive_first, close_stop, cancel, receive_second, acquire, give_up, stop_leading, shut_down,
  finish, start_fails, start_add, start_go, turn, sync_fails, return, rotate, Reach, start, next,
}
use cloud_network_config_con.Process.Ending.{runs, finishes, killed, fails, Step-Ending}

-- The signals that the handler has received.
abbrev received : Handler → ℕ
received awaiting_first = 0
received closing = 1
received cancelling = 1
received awaiting_second = 1

-- Those that the process has sent to itself.
abbrev own : Election → ℕ
own connecting = 0
own candidate = 0
own leading = 0
own ended = 0
own waiting = 1

abbrev IsCounted : Process → Type 0
IsCounted s = s.signals + received s.handler ≤ s.external + own s.election

deliver-le : (n : ℕ) → deliver n ≤ suc n
deliver-le n = ground arith

Step-IsCounted :
    (c : Settings) {s t : Process} → Step c s t → IsCounted s → t.exit ≡ none → IsCounted t
Step-IsCounted c {s = s} signal h x = ground (arith, h, deliver-le s.signals)
Step-IsCounted c (receive_first n a b) h x = ground (arith, h, b, ap received a)
Step-IsCounted c (close_stop a) h x = ground (arith, h, ap received a)
Step-IsCounted c (cancel a) h x = ground (arith, h, ap received a)
Step-IsCounted c (receive_second n a b) h x = cc
Step-IsCounted c (connect a) h x = ground (arith, h, ap own a)
Step-IsCounted c (connect_fails a) h x = h
Step-IsCounted c (acquire a b) h x = ground (arith, h, ap own a)
Step-IsCounted c (give_up a b) h x = ground (arith, h, ap own a)
Step-IsCounted c (stop_leading a) h x = ground (arith, h, ap own a)
Step-IsCounted c {s = s} (shut_down a) h x = ground (arith, h, ap own a, deliver-le s.signals)
Step-IsCounted c (finish a b) h x = h
Step-IsCounted c (start_fails a) h x = h
Step-IsCounted c (start_add rest a) h x = h
Step-IsCounted c (start_go k rest a) h x = h
Step-IsCounted c (turn before after k a m) h x = h
Step-IsCounted c (sync_fails before after k a b) h x = h
Step-IsCounted c (return before after k n a b) h x = h
Step-IsCounted c (rotate before after k n a b) h x = h

Reach-IsCounted : (c : Settings) {s : Process} → Reach c s → s.exit ≡ none → IsCounted s
Reach-IsCounted c start x = ground arith
Reach-IsCounted c (next r e m) x = Step-IsCounted c m (Reach-IsCounted c r e) x

own-le : (e : Election) → own e ≤ 1
own-le connecting = ground arith
own-le candidate = ground arith
own-le leading = ground arith
own-le ended = ground arith
own-le waiting = ground arith

-- If a second signal has ended the program, then the environment has sent a signal: the one that a
-- rotation of credentials or the end of the leadership sends does not do it by itself.
pub Reach-second_signal :
    (c : Settings) {s : Process} → Reach c s → s.exit ≡ some second_signal → 1 ≤ s.external
Reach-second_signal c start x = cc
Reach-second_signal c (next {s = s} r e m) x = elim (Step-Ending c m) [
  | runs f ↦ cc
  | finishes w l f ↦ cc
  | killed n a b l f ↦ ground (arith, Reach-IsCounted c r e, b, ap received a, l, own-le s.election)
  | fails f ↦ cc
]
