-- ===== src/Async/Alone/Methods.antt =====
-- The methods of realtime/_async/channel.py as coroutines, run alone.
use realtime_py.Prelude.{ℕ, String, not, Option, if◌then◌else◌}
use realtime_py.Types.{Payload}
use realtime_py.World.{World, M, subscribed_before, not_subscribed, ⊤, raise, raises, gets}
use realtime_py.Push.{new_push}
use realtime_py.Socket
use realtime_py.Subscription
use realtime_py.Subscription.{prepare_join, push_later, can_push, timeout_or}
use realtime_py.Async.{Co}
use realtime_py.Async.Methods.{subscribe, push_out, push_now, push}
use realtime_py.Async.Alone.{
  Alone, Alone-lift, Alone-bind, Alone-read, Alone-choice, Alone-if, Alone-when,
}
use realtime_py.Async.Alone.Sending.{Alone-push_send, Alone-rejoin, Alone-connect}

module _ (closed : Co ⊤) (call : M ⊤) (same : Alone closed call) where
  pub Alone-subscribe :
      (c : ℕ) (f : Option ℕ) → Alone (subscribe closed c f) (Subscription.subscribe call c f)
  unfolding subscribe Subscription.subscribe
  Alone-subscribe c f = Alone-bind (Alone-lift (gets (λ w. w.is_connected))) (λ connected.
      Alone-bind (Alone-when (not connected) (Alone-connect closed call same)) (λ _.
        Alone-bind (Alone-lift (gets (λ w. (w.channel_at c).joined_once))) (λ joined_once.
          Alone-bind (Alone-when joined_once (Alone-lift (raise subscribed_before))) (λ _.
            Alone-bind (Alone-lift (prepare_join c f)) (λ _. Alone-rejoin closed call same c)))))

  Alone-push_out : (p : ℕ) → Alone (push_out closed p) (Subscription.push_out call p)
  unfolding push_out Subscription.push_out
  Alone-push_out p =
      Alone-bind (Alone-push_send closed call same p)
        (λ _. Alone-bind (Alone-lift (gets (λ w. (w.push_at p).ref))) (λ ref. Alone-lift _))

  Alone-push_now :
      (c : ℕ) (event : String) (payload : Payload) (timeout : Option ℕ)
      → Alone
          (push_now closed c event payload timeout)
          (Subscription.push_now call c event payload timeout)
  unfolding push_now Subscription.push_now
  Alone-push_now c event payload timeout = Alone-bind (Alone-lift (gets (λ w. w))) (λ w.
      Alone-bind
        (Alone-lift (new_push c event payload (timeout_or timeout (w.channel_at c).timeout)))
        (λ p. Alone-choice (can_push c w) (Alone-push_out p) (Alone-lift (push_later c p))))

  pub Alone-push :
      (c : ℕ) (event : String) (payload : Payload) (timeout : Option ℕ)
      → Alone (push closed c event payload timeout) (Subscription.push call c event payload timeout)
  unfolding push Subscription.push
  Alone-push c event payload timeout =
      Alone-read (λ w. (w.channel_at c).joined_once)
        (λ b w.
          if b
          then Subscription.push_now call c event payload timeout w
          else (raises not_subscribed, w))
        (λ b.
          Alone-if b (Alone-push_now c event payload timeout) (Alone-lift (raise not_subscribed)))
