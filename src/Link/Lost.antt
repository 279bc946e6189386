-- ===== src/Link/Lost.antt =====
-- `callback_disconnected` wakes the link's thread before it sets the status that the thread reads.
use muondetector_cluster.Prelude.{ℕ, suc, ◌+◌, ◌≡◌, refl, true, false, List, [], ◌∷◌, some, All}
use muondetector_cluster.Runner.{is_zero}
use muondetector_cluster.Source.Run.{done}
use muondetector_cluster.Link.{
  Status, Mqtt, Mosquitto, Callback, disconnection, pause, log, set_status, status_eq, announce,
  callback_disconnected, receive, receive_all, check_connection,
}
use muondetector_cluster.Link.Connect.{attempt, connect}

-- Reports of errors.
abbrev pub IsLoss : Callback → Type 0
IsLoss (disconnection result) = is_zero result ≡ false
IsLoss _ = ⊥

module _ (m : Mosquitto) where
  -- A link in error takes no notice of further losses.
  receive_all-error :
      (cs : List Callback) (l : Mqtt)
      → All IsLoss cs
      → receive_all m cs (set_status Status.error l) ≡ done (set_status Status.error l)
  unfolding receive_all receive callback_disconnected announce status_eq
  receive_all-error [] l h = refl
  receive_all-error (disconnection result ∷ cs) l h = rw h.0 (receive_all-error cs l h.1)
  receive_all-error (Callback.connection result ∷ cs) l h = absurd h.0

  -- A connected link whose thread runs between the two steps of a loss is woken and finds itself
  -- connected: if nothing is reported and nothing ends its wait, `connect` returns at once with
  -- success and asks the library for nothing. After the second step it is in error, and no number
  -- of further losses wakes the thread or changes the link.
  pub connect-woken_early :
      (fuel : ℕ) (l : Mqtt) (losses : List Callback)
      → l.status ≡ Status.connected
      → m.stopped (pause l.tries ∷ l.calls) ≡ false
      → m.arrivals (pause l.tries ∷ l.calls) ≡ []
      → All IsLoss losses
      → let (goes_on, woken) = announce l in
        let found = log (pause l.tries) woken in
        (goes_on ≡ true)
        × (woken.wakes ≡ l.wakes + 1)
        × (connect m (suc fuel) woken ≡ some (done (true, found)))
        × (receive_all m losses (set_status Status.error found)
            ≡ done (set_status Status.error found))
  unfolding connect attempt receive_all check_connection announce status_eq
  connect-woken_early fuel l losses c s a h = (
    rw c refl,
    rw c refl,
    rw (c, a, s) refl,
    receive_all-error losses (log (pause l.tries) (announce l).1) h,
  )
