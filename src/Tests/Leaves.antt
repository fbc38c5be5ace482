-- ===== src/Tests/Leaves.antt =====
-- Runs of a channel that leaves, with the reply of the server to the leave.
use realtime_py.Prelude.{◌+◌, ◌≡◌, ◌≢◌, refl, arith, some, none, [], ◌∷◌, ◌++◌}
use realtime_py.Prelude.Dict.{IsDict, lookup}
use realtime_py.Prelude.Decimal.{decimal}
use realtime_py.Types.{ChannelStates, success, reply_message}
use realtime_py.World.{World, returns, skip}
use realtime_py.Socket.{unsubscribe, rejoin, dup_channels}
use realtime_py.Socket.Rejoining.{join_again}
use realtime_py.Messages.{dispatch}
use realtime_py.Client.Leaving.{leave_message}
use realtime_py.Client.Returning.{Gone, unsubscribe-dispatch, rejoin-dispatch}
use realtime_py.Tests.{room, online}

-- A client with one channel, which is joined.
abbrev one_joined : World
one_joined = record online { channel_at = λ _. record room { state = ChannelStates.joined } }

one_joined-IsDict : IsDict one_joined.channels
unfolding lookup
one_joined-IsDict = (refl, tt)

one_joined-known : lookup "realtime:room" one_joined.channels ≡ some 0
unfolding lookup
one_joined-known = refl

one_joined-alone : dup_channels "realtime:room" one_joined ≡ 0 ∷ []
unfolding dup_channels
one_joined-alone = refl

own : (one_joined.push_at 0).channel ≡ 0
own = refl

other : one_joined.next_push ≢ 0
other e = omega arith

unsubscribe-dispatch_example :
    let (r, v) = unsubscribe skip 0 one_joined in
    let (r', u) =
      dispatch
        (reply_message "realtime:room"
          (leave_message 0 one_joined.ref one_joined).ref
          (success none))
        v in
    (r ≡ returns tt)
    × (v.wire ≡ [] ++ leave_message 0 one_joined.ref one_joined ∷ [])
    × (r' ≡ returns tt)
    × Gone 0 "realtime:room" u
unsubscribe-dispatch_example =
    unsubscribe-dispatch skip 0 none one_joined refl refl one_joined-IsDict one_joined-known

rejoin-dispatch_example :
    let (r, v) = rejoin skip 0 one_joined in
    let leave = leave_message 0 one_joined.ref one_joined in
    let (r', u) = dispatch (reply_message "realtime:room" leave.ref (success none)) v in
    (r ≡ returns tt)
    × (v.wire
        ≡ []
          ++ leave
            ∷ record (join_again 0 0 one_joined) { ref = some (decimal (one_joined.ref + 2)) }
            ∷ [])
    × (r' ≡ returns tt)
    × Gone 0 "realtime:room" u
rejoin-dispatch_example =
    rejoin-dispatch skip 0 none one_joined refl refl one_joined-IsDict one_joined-known refl
      one_joined-alone own other
