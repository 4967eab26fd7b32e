-- ===== src/Process/Ending.antt =====
-- What each step does to the end of the program.
use cloud_network_config_con.Base.{ℕ, suc, some, ◌≡◌, refl}
use cloud_network_config_con.Settings.{Settings}
use cloud_network_config_con.Process.{
  Process, finished, second_signal, fatal, awaiting_second, Step, signal, receive_first, close_stop,
  cancel, receive_second, acquire, connect, connect_fails, give_up, stop_leading, shut_down, finish,
  start_fails, start_add, start_go, turn, sync_fails, return, rotate,
}

-- What a step does to the end of the program.
pub data Ending (s t : Process) : Type 0 where
  runs : t.exit ≡ s.exit → Ending s t
  finishes : s.wait_group ≡ 0 → t.live ≡ s.live → t.exit ≡ some finished → Ending s t
  killed :
      (n : ℕ)
      → s.handler ≡ awaiting_second
      → s.signals ≡ suc n
      → t.external ≡ s.external
      → t.exit ≡ some second_signal
      → Ending s t
  fails : t.exit ≡ some fatal → Ending s t

pub Step-Ending : (c : Settings) {s t : Process} → Step c s t → Ending s t
Step-Ending c signal = runs refl
Step-Ending c (receive_first n a b) = runs refl
Step-Ending c (close_stop a) = runs refl
Step-Ending c (cancel a) = runs refl
Step-Ending c (receive_second n a b) = killed n a b refl refl
Step-Ending c (connect a) = runs refl
Step-Ending c (connect_fails a) = fails refl
Step-Ending c (acquire a b) = runs refl
Step-Ending c (give_up a b) = runs refl
Step-Ending c (stop_leading a) = runs refl
Step-Ending c (shut_down a) = runs refl
Step-Ending c (finish a b) = finishes b refl refl
Step-Ending c (start_fails a) = fails refl
Step-Ending c (start_add rest a) = runs refl
Step-Ending c (start_go k rest a) = runs refl
Step-Ending c (turn before after k a m) = runs refl
Step-Ending c (sync_fails before after k a b) = fails refl
Step-Ending c (return before after k n a b) = runs refl
Step-Ending c (rotate before after k n a b) = runs refl
