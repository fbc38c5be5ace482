-- ===== src/Subscription/Pushing.antt =====
-- `AsyncRealtimeChannel.push` while nothing can be sent, and the join that follows.
use realtime_py.Prelude.{
  ℕ, ◌+◌, String, ◌≡◌, refl, ap, ◌∙◌, true, false, ◌&&◌, Option, [], ◌∷◌, ◌++◌, map, if◌then◌else◌,
  if_true,
}
use realtime_py.Types.{Payload}
use realtime_py.Timer.{reset}
use realtime_py.World.{
  World, M, ⊤, returns, continue, ◌>>◌, pure, modify_channel, put_at_self, set_push,
}
use realtime_py.Channel.{on_join_ok}
use realtime_py.Channel.States.{send_task, on_join_ok_lem}
use realtime_py.Push.{fresh_push, new_push}
use realtime_py.Push.Timeout.{start_timeout_lem}
use realtime_py.Subscription.{can_push, timeout_or, push_later, push_out, push_now, push}

-- While the connection is closed, a push of a channel that has been subscribed sends nothing, and goes
-- to the end of the buffer of the channel.
push-buffers :
    (closed : M ⊤) (c : ℕ) (event : String) (payload : Payload) (timeout : Option ℕ) (w : World)
    → (w.channel_at c).joined_once ≡ true
    → w.is_connected ≡ false
    → (v : World) × (push closed c event payload timeout w ≡ (returns w.next_push, v))
      × (v.wire ≡ w.wire)
      × ((v.channel_at c).push_buffer ≡ (w.channel_at c).push_buffer ++ w.next_push ∷ [])
unfolding push push_now new_push can_push push_later
push-buffers closed c event payload timeout w once down =
    let made =
      record (set_push w.next_push
        (fresh_push c event payload (timeout_or timeout (w.channel_at c).timeout)) w) {
          next_push = w.next_push + 1;
        } in
    let (u, e, channels, connected, outcomes, wire) = start_timeout_lem w.next_push made in
    let rest : ⊤ → M ℕ = λ _.
      modify_channel c (λ ch. record ch { push_buffer = ch.push_buffer ++ w.next_push ∷ [] })
      >> pure w.next_push in
    (
      (modify_channel c (λ ch. record ch { push_buffer = ch.push_buffer ++ w.next_push ∷ [] }) u).1,
      if_true _ once ∙ cannot made ∙ ap (continue rest) e,
      wire,
      rw (put_at_self, channels) refl,
    )
  where
    cannot :
        (v : World)
        → (if can_push c w then push_out closed w.next_push else push_later c w.next_push) v
          ≡ push_later c w.next_push v
    cannot v =
        ap
          (λ b.
            (if b && (w.channel_at c).joined_once
                then push_out closed w.next_push
                else push_later c w.next_push)
              v)
          down

-- A push of a subscribed channel while the connection is closed is returned and puts nothing on the
-- wire; when a join is answered with success afterwards, the last task that is created is one that
-- sends this push, after one for each push that was in the buffer before, in order.
pub push-on_join_ok :
    (closed : M ⊤) (c : ℕ) (event : String) (payload : Payload) (timeout : Option ℕ) (w : World)
    → (w.channel_at c).joined_once ≡ true
    → w.is_connected ≡ false
    → let (r, v) = push closed c event payload timeout w in
      let v' = (on_join_ok c v).1 in
      (r ≡ returns w.next_push)
      × (v.wire ≡ w.wire)
      × (v'.tasks
          ≡ (reset (v.channel_at c).rejoin_timer v.tasks).1
            ++ map send_task ((w.channel_at c).push_buffer ++ w.next_push ∷ []))
push-on_join_ok closed c event payload timeout w once down =
    let (v, e, wire, buffer) = push-buffers closed c event payload timeout w once down in
    let (v', joins, channel, tasks, calls, others) = on_join_ok_lem c v in
    rw e (
      refl,
      wire,
      rw joins (
          tasks
          ∙ ap (λ ps. (reset (v.channel_at c).rejoin_timer v.tasks).1 ++ map send_task ps) buffer),
    )
