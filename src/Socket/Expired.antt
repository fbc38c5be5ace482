-- ===== src/Socket/Expired.antt =====
-- `AsyncPush.send` of a push whose timeout has elapsed, such as one that waited in the buffer of a
-- channel for too long.
use realtime_py.Prelude.{ℕ, ◌≡◌, refl, ap, ◌∙◌, if_true}
use realtime_py.Types.{RealtimeAcknowledgementStatus}
use realtime_py.World.{
  World, Push, nothing, M, ⊤, Outcome, returns, raises, continue, gets, ◌>>=◌, modify_channel,
  put_at_self,
}
use realtime_py.Push.{trigger, timeout_elapsed, forget}
use realtime_py.Push.Timeout.{trigger-push_at}
use realtime_py.Socket.{has_timed_out, push_send}

after_trigger :
    (p : ℕ) (r : Outcome ⊤ × World)
    → (continue
        (λ _. gets (λ w. w.push_at p) >>= λ ps. modify_channel ps.channel (forget ps.ref))
        r).1.push_at
      ≡ r.1.push_at
after_trigger p (returns _, w) = refl
after_trigger p (raises e, w) = refl

-- Once the timeout of a push has elapsed, `send` of that push does nothing: it returns, and puts
-- nothing on the wire or in a buffer.
pub push_send-timeout_elapsed :
    (closed : M ⊤) (p : ℕ) (w : World)
    → let w' = (timeout_elapsed p w).1 in push_send closed p w' ≡ (returns tt, w')
unfolding push_send timeout_elapsed
push_send-timeout_elapsed closed p w = if_true _ (
    ap (λ (f : ℕ → Push). has_timed_out (f p))
      (after_trigger p (trigger p RealtimeAcknowledgementStatus.timeout nothing w)
        ∙ trigger-push_at p RealtimeAcknowledgementStatus.timeout nothing w)
    ∙ ap has_timed_out (put_at_self p _ w.push_at))
