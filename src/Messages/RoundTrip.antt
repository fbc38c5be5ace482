-- ===== src/Messages/RoundTrip.antt =====
-- A push that is sent and then answered: from `AsyncPush.send` to `_handle_message`.
use realtime_py.Prelude.{
  ℕ, ◌+◌, ◌≡◌, refl, true, false, some, [], ◌∷◌, ◌++◌, arith, eq_iff, if_true,
}
use realtime_py.Prelude.Dict.{lookup, lookup-insert}
use realtime_py.Prelude.Decimal.{decimal, decimal_nonempty}
use realtime_py.Types.{ReplyPayload}
use realtime_py.World.{World, M, ⊤, returns, put_at_self}
use realtime_py.Socket.{has_timed_out, push_send}
use realtime_py.Socket.Taken.{message_of, push_send-Taken}
use realtime_py.Messages.{acknowledge, handle_reply}
use realtime_py.Messages.Replies.{settle, handle_reply_waiting}

-- A push that has not timed out, sent by a connected client whose socket takes every message: the send
-- returns, its message is the next on the wire, and a reply to the reference of that message settles
-- that very push, with its entry taken off.
pub push_send-handle_reply :
    (closed : M ⊤) (p : ℕ) (payload : ReplyPayload) (w : World)
    → has_timed_out (w.push_at p) ≡ false
    → w.is_connected ≡ true
    → w.send_outcomes ≡ []
    → let c = (w.push_at p).channel in
      let (r, w') = push_send closed p w in
      (r ≡ returns tt)
      × (w'.wire ≡ w.wire ++ message_of p w ∷ [])
      × (handle_reply c (message_of p w).ref payload w'
          ≡ acknowledge p payload (settle c (decimal (w.ref + 1)) w'))
push_send-handle_reply closed p payload w live connected accepts =
    let (v, sent, taken) = push_send-Taken closed p w live connected accepts in
    let c = (w.push_at p).channel in
    let ref = decimal (w.ref + 1) in
    let waiting : lookup ref (v.channel_at c).messages_waiting_for_ack ≡ some p =
      rw (taken.channel_at, put_at_self, lookup-insert) (if_true _ ((eq_iff ref ref).1 refl)) in
    rw sent (
      refl,
      refl,
      handle_reply_waiting c ref payload _ (decimal_nonempty (w.ref + 1) (omega arith)) p waiting,
    )
