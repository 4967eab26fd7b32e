-- ===== src/Process/Invariant.antt =====
-- What holds of every state that the process comes to: the wait group counts the controllers that are
-- live.
use cloud_network_config_con.Base.{
  ℕ, suc, ◌+◌, ◌≤◌, List, [], ◌∷◌, ◌++◌, some, ◌≡◌, refl, ap, ◌∙◌, subst, length, arith, Bool-cases,
  inl, inr,
}
use cloud_network_config_con.Settings.{
  Settings, Action, add, go, watches_config_map, start_controllers,
}
use cloud_network_config_con.Process.{
  Process, Live, draining, finished, connecting, candidate, connect, connect_fails, Step, signal,
  receive_first, close_stop, cancel, receive_second, acquire, give_up, stop_leading, shut_down,
  finish, start_fails, start_add, start_go, turn, sync_fails, return, rotate, Reach, start, next,
}
use cloud_network_config_con.Process.Ending.{runs, finishes, killed, fails, Step-Ending}

abbrev pub adds : List Action → ℕ
adds [] = 0
adds (add ∷ as') = suc (adds as')
adds (go k ∷ as') = adds as'

abbrev pub gos : List Action → ℕ
gos [] = 0
gos (add ∷ as') = gos as'
gos (go k ∷ as') = suc (gos as')

-- At no point are more additions left than goroutines.
abbrev pub Ahead : List Action → Type 0
Ahead [] = Unit {0}
Ahead (a ∷ as') = (adds (a ∷ as') ≤ gos (a ∷ as')) × Ahead as'

abbrev pub IsBalanced : Process → Type 0
IsBalanced s =
    (length s.live + gos s.to_start ≡ s.wait_group + adds s.to_start)
    × Ahead s.to_start
    × (s.election ≡ candidate → s.to_start ≡ [])
    × (s.election ≡ connecting → s.to_start ≡ [])

Ahead-le : (as' : List Action) → Ahead as' → adds as' ≤ gos as'
Ahead-le [] h = ground arith
Ahead-le (a ∷ as') h = h.0

start_lem :
    (c : Settings)
    → (adds (start_controllers c) ≡ gos (start_controllers c)) × Ahead (start_controllers c)
unfolding start_controllers
start_lem c = elim (Bool-cases (watches_config_map c)) [
  | inl h ↦ rw h (refl, ground arith)
  | inr h ↦ rw h (refl, ground arith)
]

length-middle :
    (before after : List Live) (l : Live)
    → length (before ++ (l ∷ after)) ≡ suc (length (before ++ after))
length-middle [] after l = refl
length-middle (x ∷ before) after l = ap suc (length-middle before after l)

Step-IsBalanced : (c : Settings) {s t : Process} → Step c s t → IsBalanced s → IsBalanced t
Step-IsBalanced c signal h = h
Step-IsBalanced c (receive_first n e f) h = h
Step-IsBalanced c (close_stop e) h = h
Step-IsBalanced c (cancel e) h = h
Step-IsBalanced c (receive_second n e f) h = h
Step-IsBalanced c (acquire e f) h = (
  ground (arith, h.0, h.2 e, (start_lem c).0, ap gos (h.2 e), ap adds (h.2 e)),
  (start_lem c).1,
  λ x. cc,
  λ x. cc,
)
Step-IsBalanced c (connect e) h = (h.0, h.1, λ x. h.3 e, λ x. cc)
Step-IsBalanced c (connect_fails e) h = h
Step-IsBalanced c (give_up e f) h = (h.0, h.1, λ x. cc, λ x. cc)
Step-IsBalanced c (stop_leading e) h = (h.0, h.1, λ x. cc, λ x. cc)
Step-IsBalanced c (shut_down e) h = (h.0, h.1, λ x. cc, λ x. cc)
Step-IsBalanced c (finish e f) h = h
Step-IsBalanced c (start_fails e) h = h
Step-IsBalanced c (start_add rest e) h = (
  ground (arith, h.0, ap gos e, ap adds e),
  (subst Ahead e h.1).1,
  λ x. cc (h.2 x),
  λ x. cc (h.3 x),
)
Step-IsBalanced c (start_go k rest e) h = (
  ground (arith, h.0, ap gos e, ap adds e),
  (subst Ahead e h.1).1,
  λ x. cc (h.2 x),
  λ x. cc (h.3 x),
)
Step-IsBalanced c (turn before after k {p = p} {q = q} e m) h = (
  ground (
    arith,
    h.0,
    ap length e,
    length-middle before after (record { controller = k; phase = p }),
    length-middle before after (record { controller = k; phase = q }),
  ),
  h.1,
  h.2,
  h.3,
)
Step-IsBalanced c (sync_fails before after k e f) h = h
Step-IsBalanced c (return before after k n e f) h = (
  ground (
    arith,
    h.0,
    ap length e,
    f,
    length-middle before after (record { controller = k; phase = draining 0 }),
  ),
  h.1,
  h.2,
  h.3,
)
Step-IsBalanced c (rotate before after k n e f) h = h

pub Reach-IsBalanced : (c : Settings) {s : Process} → Reach c s → IsBalanced s
Reach-IsBalanced c start = (refl, ground arith, λ x. refl, λ x. refl)
Reach-IsBalanced c (next r e m) = Step-IsBalanced c m (Reach-IsBalanced c r)

length-zero : (ls : List Live) → length ls ≡ 0 → ls ≡ []
length-zero [] e = refl
length-zero (l ∷ ls) e = ground arith

live_of_balanced : (s : Process) → IsBalanced s → s.wait_group ≡ 0 → s.live ≡ []
live_of_balanced s h e = length-zero s.live (ground (arith, h.0, e, Ahead-le s.to_start h.1))

-- In a state that the process comes to, the counter of the wait group is not below the number of the
-- controllers that have not returned, and if `main` has returned, then no controller is left.
pub Reach-waits :
    (c : Settings) {s : Process}
    → Reach c s
    → (length s.live ≤ s.wait_group) × (s.exit ≡ some finished → s.live ≡ [])
Reach-waits c r = (waits c r, λ x. returned c r x)
  where
    waits : (c : Settings) {s : Process} → Reach c s → length s.live ≤ s.wait_group
    waits c {s = s} r =
        ground (arith, (Reach-IsBalanced c r).0, Ahead-le s.to_start (Reach-IsBalanced c r).1)

    returned : (c : Settings) {s : Process} → Reach c s → s.exit ≡ some finished → s.live ≡ []
    returned c start x = cc
    returned c (next {s = s} r e m) x = elim (Step-Ending c m) [
      | runs f ↦ cc
      | finishes w l f ↦ l ∙ live_of_balanced s (Reach-IsBalanced c r) w
      | killed n a b l f ↦ cc
      | fails f ↦ cc
    ]
