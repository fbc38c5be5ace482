-- ===== src/Socket/Resending.antt =====
-- `AsyncPush.resend` of a push whose timeout was started before, as `_rejoin` does with the join push.
use realtime_py.Prelude.{
  ℕ, ◌+◌, ◌≡◌, refl, ap, ◌∙◌, true, false, none, some, [], ◌∷◌, ◌++◌, if_true, if_false,
}
use realtime_py.Prelude.Dict.{insert}
use realtime_py.Prelude.Decimal.{decimal}
use realtime_py.Types.{Message}
use realtime_py.World.{
  World, M, ⊤, returns, continue, modify_push, put_at_self, set_channel, set_push,
}
use realtime_py.Push.{start_timeout}
use realtime_py.Socket.{make_ref, register, send, has_timed_out, push_send, resend}
use realtime_py.Socket.Sending.{send_open}

start_timeout-again :
    (p i : ℕ) (v : World)
    → (v.push_at p).timeout_task ≡ some i
    → (u : World) × (start_timeout p v ≡ (returns tt, u))
      × (u.channel_at ≡ v.channel_at)
      × (u.tasks ≡ v.tasks)
      × (u.is_connected ≡ v.is_connected)
      × (u.send_outcomes ≡ v.send_outcomes)
unfolding start_timeout
start_timeout-again p i v h = (v, rw (h, start_timeout), refl, refl, refl, refl)

register-again :
    (p i : ℕ) (w : World)
    → (w.push_at p).timeout_task ≡ some i
    → (m : Message) × (v : World) × (register p w ≡ (returns m, v))
      × (v.tasks ≡ w.tasks)
      × (v.is_connected ≡ w.is_connected)
      × (v.send_outcomes ≡ w.send_outcomes)
unfolding register make_ref
register-again p i w h =
    let ps = record (w.push_at p) { ref = some (decimal (w.ref + 1)) } in
    let ch = w.channel_at ps.channel in
    let entered =
      set_channel ps.channel
        (record ch {
          messages_waiting_for_ack = insert (decimal (w.ref + 1)) p ch.messages_waiting_for_ack;
        })
        (set_push p ps (record w { ref = w.ref + 1 })) in
    let (u, e, channels, tasks, connected, outcomes) =
      start_timeout-again p i entered (rw put_at_self h) in
    (
      record {
        topic = ch.topic;
        event = ps.event;
        ref = some (decimal (w.ref + 1));
        payload = ps.payload;
      },
      (modify_push p (λ ps. record ps { sent = true }) u).1,
      rw (put_at_self, e, channels, put_at_self) refl,
      tasks,
      connected,
      outcomes,
    )

-- If the timeout of a push was started before, whether it has elapsed or not, sending the push again
-- on an open connection whose socket takes every message returns and starts no task: the push has no
-- new timeout.
pub resend-tasks :
    (closed : M ⊤) (p i : ℕ) (w : World)
    → (w.push_at p).timeout_task ≡ some i
    → w.is_connected ≡ true
    → w.send_outcomes ≡ []
    → let (r, w') = resend closed p w in (r ≡ returns tt) × (w'.tasks ≡ w.tasks)
unfolding resend push_send send
resend-tasks closed p i w h connected accepts =
    let again =
      set_push p (record (w.push_at p) { ref = none; received_resp = none; sent = false }) w in
    let (m, v, e, tasks, still, outcomes) = register-again p i again (rw put_at_self h) in
    let sent : resend closed p w
        ≡ (returns tt, record v { wire = v.wire ++ m ∷ []; send_outcomes = [] }) =
      if_false _ (ap has_timed_out (put_at_self p _ w.push_at))
      ∙ ap (continue (send closed)) e
      ∙ if_true _ (still ∙ connected)
      ∙ send_open closed m v (still ∙ connected) (outcomes ∙ accepts) in
    rw sent (refl, tasks)
