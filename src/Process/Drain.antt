-- ===== src/Process/Drain.antt =====
-- How a process that stops comes to the end of `main`: every controller sees the stop channel closed,
-- lets its workers finish and returns.
use cloud_network_config_con.Base.{
  ℕ, zero, suc, ◌+◌, List, [], ◌∷◌, ◌++◌, none, some, true, ◌≡◌, refl, false, true, ◌∙◌, ap, arith,
  length,
}
use cloud_network_config_con.Settings.{Settings, Controller}
use cloud_network_config_con.Process.{
  Process, Live, Phase, syncing, serving, draining, synced, stop, drain, Rotates, finished,
  awaiting_first, leading, deliver, receive_first, close_stop, cancel, stop_leading, shut_down,
  finish, turn, return, rotate, Step, awaiting_second, waiting, Reach, Later, here, step,
}
use cloud_network_config_con.Process.Invariant.{gos, adds, Reach-IsBalanced}

-- The process comes to a state in which these controllers are left, and nothing else of what matters is
-- new.
abbrev Left : Settings → Process → List Live → Type 0
Left c s ls =
    (t : Process) × Later c s t
    × (t.live ≡ ls)
    × (t.wait_group ≡ length ls)
    × (t.stop_closed ≡ true)
    × (t.exit ≡ none)
    × (t.election ≡ s.election)
    × (t.external ≡ s.external)

Later-append : (c : Settings) {s t u : Process} → Later c s t → Later c t u → Later c s u
Later-append c (here s) m = m
Later-append c (step e a l) m = step e a (Later-append c l m)

-- One step first.
preceded :
    (c : Settings) (s u : Process) (ls : List Live)
    → s.exit ≡ none
    → Step c s u
    → u.election ≡ s.election
    → u.external ≡ s.external
    → Left c u ls
    → Left c s ls
preceded c s u ls e m v x (t, l, o, w, a, f, v1, x1) = (t, step e m l, o, w, a, f, v1 ∙ v, x1 ∙ x)

drained :
    (c : Settings) (n : ℕ) (k : Controller) (ls : List Live) (s : Process)
    → s.exit ≡ none
    → s.stop_closed ≡ true
    → s.live ≡ ((record { controller = k; phase = draining n }) ∷ ls)
    → s.wait_group ≡ suc (length ls)
    → Left c s ls
drained c zero k ls s e a l w =
    (_, step e (return [] ls k (length ls) l w) (here _), refl, refl, a, e, refl, refl)
drained c (suc n) k ls s e a l w =
    preceded c s _ ls e (turn [] ls k l (drain n)) refl refl (drained c n k ls _ e a refl w)

returned :
    (c : Settings) (p : Phase) (k : Controller) (ls : List Live) (s : Process)
    → s.exit ≡ none
    → s.stop_closed ≡ true
    → s.live ≡ ((record { controller = k; phase = p }) ∷ ls)
    → s.wait_group ≡ suc (length ls)
    → Left c s ls
returned c syncing k ls s e a l w = preceded c s _ ls e (turn [] ls k l synced) refl refl (
    preceded c _ _ ls e (turn [] ls k refl (stop 0 0 a)) refl refl
      (drained c (0 + 0) k ls _ e a refl w))
returned c (serving n) k ls s e a l w =
    preceded c s _ ls e (turn [] ls k l (stop n 0 a)) refl refl
      (drained c (n + 0) k ls _ e a refl w)
returned c (draining n) k ls s e a l w = drained c n k ls s e a l w

emptied :
    (c : Settings) (ls : List Live) (s : Process)
    → s.exit ≡ none
    → s.stop_closed ≡ true
    → s.live ≡ ls
    → s.wait_group ≡ length ls
    → Left c s []
emptied c [] s e a l w = (s, here s, l, w, a, e, refl, refl)
emptied c (x ∷ ls) s e a l w =
    let (t, r1, l1, w1, a1, e1, v1, x1) = returned c x.phase x.controller ls s e a l w in
    let (u, r2, l2, w2, a2, e2, v2, x2) = emptied c ls t e1 a1 l1 w1 in
    (u, Later-append c r1 r2, l2, w2, a2, e2, v2 ∙ v1, x2 ∙ x1)

-- What the process is when a rotation has ended the leadership and the handler has got the signal.
abbrev stopped : Process → Process
stopped s = record s {
  signals = 0;
  handler = awaiting_second;
  stop_closed = true;
  cancelled = true;
  election = waiting;
  holds_lease = false;
}

-- A process that leads, has started its controllers and got no signal may come to its end after a
-- worker of a controller that watches the credentials has run its handler: with no signal from the
-- environment, the leadership ends, every controller drains and returns, and `main` returns.
pub rotate-finished :
    (c : Settings) {s : Process} (before after : List Live) (k : Controller) (n : ℕ)
    → Reach c s
    → s.exit ≡ none
    → s.election ≡ leading
    → s.handler ≡ awaiting_first
    → s.signals ≡ 0
    → s.to_start ≡ []
    → s.live ≡ before ++ ((record { controller = k; phase = serving (suc n) }) ∷ after)
    → Rotates k
    → Step c s (record s { cancelled = true })
      × (t : Process) × Later c (record s { cancelled = true }) t
      × (t.exit ≡ some finished)
      × (t.external ≡ s.external)
      × (t.live ≡ [])
rotate-finished c {s = s} before after k n r e l a b o f m =
    let balanced = Reach-IsBalanced c r in
    let w : s.wait_group ≡ length s.live = ground (arith, balanced.0, ap gos o, ap adds o) in
    let (t, later, l7, w7, a7, e7, v7, x7) = emptied c s.live (stopped s) e refl refl w in
    let end = step e7 (finish v7 w7) (here _) in
    (
      rotate before after k n f m,
      _,
      step e (stop_leading l) (
          step e (shut_down refl) (
            step e (receive_first 0 a (ap deliver b))
              (step e (close_stop refl) (step e (cancel refl) (Later-append c later end))))),
      refl,
      x7,
      l7,
    )
