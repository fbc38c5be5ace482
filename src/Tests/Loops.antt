-- ===== src/Tests/Loops.antt =====
-- Runs of tasks on one event loop, one waiting for its dial while the other runs.
use realtime_py.Prelude.{ℕ, ◌+◌, ◌≡◌, refl, String, none, some, [], true, false}
use realtime_py.Prelude.Dict.{lookup, insert, contains}
use realtime_py.Prelude.Decimal.{decimal}
use realtime_py.Types.{ServerMessage, channel_error_message, topic_of}
use realtime_py.World.{World, returns, ⊤, put_at}
use realtime_py.Push.{new_push, receive}
use realtime_py.Socket
use realtime_py.Socket.{make_ref}
use realtime_py.Subscription
use realtime_py.Messages.{handle_message, dispatch}
use realtime_py.Client
use realtime_py.Registry.Run.{start}
use realtime_py.Async.Sequences.{calls_interleave}
use realtime_py.Stable.Run.{Reachable, here, next, act, Action, creates, subscribes}
use realtime_py.Async.{Co, Next, finished, suspended, effect, next_of, skip, bind, try}
use realtime_py.Async.Calls.{connect, connect_loop, attempt}
use realtime_py.Async.Methods.{task, subscribe}
use realtime_py.Async.Interleaved.{Loop, Interleaving, begin, after, makes, runs, idle}
use realtime_py.Async.Invariants.{interleaved_refs_are_fresh, interleaved_messages_reach_topic}

abbrev broken : ServerMessage
broken = channel_error_message "realtime:room" "{}"

abbrev fresh : World
fresh = start none true 25000 5 1000 10 [] []

abbrev left_of : Next ⊤ → Co ⊤
left_of (finished r) = skip
left_of (suspended c) = c

abbrev begun : ℕ → Action → Loop → Loop
begun i a l = record l { task_at = put_at i (suspended (task 1 a)) l.task_at }

abbrev ran : ℕ → Loop → Loop
ran i l =
    let c = left_of (l.task_at i) in
    record { store = effect c l.store; task_at = put_at i (next_of c l.store) l.task_at }

abbrev created : Loop
created = ran 0 (begun 0 (creates "room" none) (idle fresh))

-- The second task waits for its dial, and the third makes another channel.
abbrev dialling : Loop
dialling = ran 2 (begun 2 (creates "other" none) (ran 1 (begun 1 (subscribes 0 none) created)))

dialling-Interleaving : Interleaving 1 fresh dialling
unfolding put_at
dialling-Interleaving =
    after
      (after
        (after
          (after (after (after begin (makes 0 (creates "room" none) refl)) (runs 0 refl))
            (makes 1 (subscribes 0 none) refl))
          (runs 1 refl))
        (makes 2 (creates "other" none) refl))
      (runs 2 refl)

dialling-made : make_ref dialling.store ≡ (
  returns (decimal (dialling.store.ref + 1)),
  record dialling.store { ref = dialling.store.ref + 1 },
)
unfolding make_ref
dialling-made = refl

interleaved_refs_are_fresh_example :
    contains
      (decimal (dialling.store.ref + 1))
      (dialling.store.channel_at 0).messages_waiting_for_ack
    ≡ false
interleaved_refs_are_fresh_example =
    interleaved_refs_are_fresh none true 25000 5 1000 10 [] [] dialling-Interleaving dialling-made 0

dialling-known : lookup (topic_of broken) dialling.store.channels ≡ some 0
unfolding lookup insert put_at topic_of bind try Client.channel Subscription.init_channel new_push
    receive Client.init subscribe connect connect_loop attempt
dialling-known = refl

interleaved_messages_reach_topic_example :
    (dispatch broken dialling.store ≡ handle_message 0 broken dialling.store)
    × ((dialling.store.channel_at 0).topic ≡ topic_of broken)
    × ((topic : String) → lookup topic dialling.store.channels ≡ some 0 → topic ≡ topic_of broken)
interleaved_messages_reach_topic_example =
    interleaved_messages_reach_topic none true 25000 5 1000 10 [] [] dialling-Interleaving broken 0
      dialling-known

two_calls : Reachable 1 fresh (act 1 (subscribes 0 none) (act 1 (creates "room" none) fresh))
two_calls = next (next here (creates "room" none)) (subscribes 0 none)

calls_interleave_example :
    (l : Loop) × Interleaving 1 fresh l
    × (l.store ≡ act 1 (subscribes 0 none) (act 1 (creates "room" none) fresh))
calls_interleave_example = calls_interleave two_calls
