-- ===== src/Stable/Pushes.antt =====
-- Steady invariants and `push` of realtime/_async/channel.py.
use realtime_py.Prelude.{ℕ, refl, String, ◌&&◌, Option, none, some, [], ◌∷◌, ◌++◌}
use realtime_py.Types.{ChannelStates, Payload, token}
use realtime_py.Types.ChannelEvents
use realtime_py.World.{
  World, not_subscribed, assertion_error, M, ⊤, pure, raise, gets, when, skip, ◌>>=◌, ◌>>◌,
  modify_channel,
}
use realtime_py.World.Keeps.{
  Keeps, Keeps-bind, Keeps-pure, Keeps-gets, Keeps-when, Keeps-if, Keeps-test, Keeps-raise,
}
use realtime_py.Channel.{in_state}
use realtime_py.Subscription.{push_later, can_push, timeout_or, push_out, push_now, push}
use realtime_py.Stable.{Steady, Stable-Steady}
use realtime_py.Stable.Quiet.{Keeps-modify_channel, Keeps-new_push, Keeps-start_timeout}
use realtime_py.Stable.Sends.{Keeps-push_send}

module _ {P : World → Type 0} ⦃s : Steady P⦄ where
  Keeps-buffered :
      (c p : ℕ)
      → Keeps P (modify_channel c (λ ch. record ch { push_buffer = ch.push_buffer ++ p ∷ [] }))
  Keeps-buffered c p =
      Keeps-modify_channel c (λ ch. record ch { push_buffer = ch.push_buffer ++ p ∷ [] })
        (λ ch. refl) (λ ch. refl)

  pub Keeps-push_later : (c p : ℕ) → Keeps P (push_later c p)
  unfolding push_later
  Keeps-push_later c p =
      Keeps-bind (Keeps-start_timeout p) (λ _. Keeps-bind (Keeps-buffered c p) (λ _. Keeps-pure p))

module _ {P : World → Type 0} ⦃s : Steady P⦄ (closed : M ⊤) (closed_keeps : Keeps P closed) where
  Keeps-referenced :
      (p : ℕ) (ref : Option String)
      → Keeps P (elim ref as (λ _. M ℕ) [ none ↦ raise assertion_error | some _ ↦ pure p ])
  Keeps-referenced p none = Keeps-raise assertion_error
  Keeps-referenced p (some ref) = Keeps-pure p

  Keeps-push_out : (p : ℕ) → Keeps P (push_out closed p)
  unfolding push_out
  Keeps-push_out p =
      Keeps-bind (Keeps-push_send closed closed_keeps p)
        (λ _. Keeps-bind (Keeps-gets (λ w. (w.push_at p).ref)) (Keeps-referenced p))

  Keeps-push_now :
      (c : ℕ) (event : String) (payload : Payload) (timeout : Option ℕ)
      → Keeps P (push_now closed c event payload timeout)
  unfolding push_now
  Keeps-push_now c event payload timeout = Keeps-bind (Keeps-gets (λ w. w)) (λ w.
      Keeps-bind (Keeps-new_push c event payload (timeout_or timeout (w.channel_at c).timeout))
        (λ p. Keeps-if (can_push c w) (Keeps-push_out p) (Keeps-push_later c p)))

  pub Keeps-push :
      (c : ℕ) (event : String) (payload : Payload) (timeout : Option ℕ)
      → Keeps P (push closed c event payload timeout)
  unfolding push
  Keeps-push c event payload timeout =
      Keeps-test (λ w. (w.channel_at c).joined_once) (λ _. Keeps-push_now c event payload timeout)
        (λ _. Keeps-raise not_subscribed)

  -- The body of the loop of `set_auth`.
  pub Keeps-token :
      (new_token : Option String) (c : ℕ)
      → Keeps P (
          gets (λ w. let ch = w.channel_at c in ch.joined_once && in_state ChannelStates.joined ch)
          >>= λ joined. when joined (
              push closed c ChannelEvents.access_token (("access_token", token new_token) ∷ []) none
              >> skip))
  Keeps-token new_token c =
      Keeps-bind
        (Keeps-gets
          (λ w. let ch = w.channel_at c in ch.joined_once && in_state ChannelStates.joined ch))
        (λ joined. Keeps-when joined (
          Keeps-bind
            (Keeps-push c ChannelEvents.access_token (("access_token", token new_token) ∷ []) none)
            (λ _. Keeps-pure tt)))
