-- ===== src/Messages/Calls.antt =====
-- The calls of user functions that a message of the server makes, and the presence state after it.
use realtime_py.Prelude.{
  String, ℕ, ◌≡◌, refl, sym, ap, ◌∙◌, Option, some, List, [], ◌∷◌, ◌++◌, map, append_assoc,
  append_nil, elem, option_eq, string_eq, str_eq, if◌then◌else◌, Bool-cases, inl, inr,
}
use realtime_py.Prelude.Dict.{Dict, lookup, get_or}
use realtime_py.Types.{
  Json, presence_state_message, topic_of, RawPresenceState, BroadcastPayload, BroadcastCallback,
  call_broadcast,
}
use realtime_py.Presence.{Call, call_sync}
use realtime_py.Presence.Synced.{IsState}
use realtime_py.Presence.Transform.{presence_ref}
use realtime_py.Presence.Transform.Events.{IsRawState, meta_ref, on_state_event_follows}
use realtime_py.World.{
  World, UserCall, presence_called, broadcast_called, returns, for_each, put_at_self,
}
use realtime_py.Channel.{call_user}
use realtime_py.Messages.{set_presence, handle_broadcast, handle_message, dispatch}

for_each-call_user :
    {A : Type 0} (f : A → UserCall) (xs : List A) (w : World)
    → for_each (λ x. call_user (f x)) xs w ≡ (returns tt, record w { calls = w.calls ++ map f xs })
unfolding call_user
for_each-call_user f [] w =
    ap (λ cs. (returns tt, record w { calls = cs })) (sym (append_nil w.calls))
for_each-call_user f (x ∷ xs) w =
    for_each-call_user f xs (record w { calls = w.calls ++ f x ∷ [] })
    ∙ ap (λ cs. (returns tt, record w { calls = cs })) (append_assoc w.calls (f x ∷ []) (map f xs))

-- A presence_state message for a channel of the client, whose state has no key without presences: if
-- the metas are well-formed, the handler returns, the references in the state of the channel are for
-- each key those of the message, and the calls of user functions that it adds end with the call of the
-- sync callback, where there is one.
pub dispatch_presence_state :
    (c : ℕ) (topic : String) (raw : RawPresenceState) (w : World)
    → lookup topic w.channels ≡ some c
    → IsState (w.channel_at c).presence.state
    → IsRawState raw
    → let (r, w') = dispatch (presence_state_message topic raw) w in
      let presence = (w'.channel_at c).presence in
      (r ≡ returns tt)
      × ((k : String) (ref : Option Json)
          → elem ref (map presence_ref (get_or k [] presence.state))
            ≡ elem ref (map meta_ref (get_or k [] raw)))
      × (calls : List (Call (Dict Json))) × (w'.calls
          ≡ w.calls ++ map presence_called (calls ++ call_sync presence.on_sync_callback))
unfolding dispatch topic_of handle_message set_presence
dispatch_presence_state c topic raw w known s h =
    let (p', calls, e, s', follows) = on_state_event_follows (w.channel_at c).presence raw s h in
    rw (known, dispatch, e, set_presence)
      (rw (for_each-call_user presence_called (calls ++ call_sync p'.on_sync_callback) _)
        (rw put_at_self (refl, follows, calls, refl)))

-- The calls that a broadcast makes of the listeners, in order.
abbrev pub broadcast_calls : List BroadcastCallback → BroadcastPayload → List UserCall
broadcast_calls [] payload = []
broadcast_calls (callback ∷ callbacks) payload =
    if str_eq callback.event payload.event
    then broadcast_called callback.callback payload ∷ broadcast_calls callbacks payload
    else broadcast_calls callbacks payload

-- A broadcast calls each listener whose event is that of the broadcast once, in the order in which
-- they were registered, and no other, and changes nothing else.
pub handle_broadcast_lem :
    (c : ℕ) (payload : BroadcastPayload) (w : World)
    → handle_broadcast c payload w ≡ (
      returns tt,
      record w { calls = w.calls ++ broadcast_calls (w.channel_at c).broadcast_callbacks payload },
    )
unfolding handle_broadcast call_broadcast call_user
handle_broadcast_lem c payload w = each (w.channel_at c).broadcast_callbacks w
  where
    each :
        (callbacks : List BroadcastCallback) (v : World)
        → for_each
            (λ callback.
              for_each
                (λ call. call_user (broadcast_called call.0 call.1))
                (call_broadcast callback payload))
            callbacks
            v
          ≡ (returns tt, record v { calls = v.calls ++ broadcast_calls callbacks payload })
    each [] v = ap (λ cs. (returns tt, record v { calls = cs })) (sym (append_nil v.calls))
    each (callback ∷ callbacks) v = elim (Bool-cases (str_eq callback.event payload.event)) [
      | inl same ↦ rw same (
          each callbacks
            (record v { calls = v.calls ++ broadcast_called callback.callback payload ∷ [] })
          ∙ ap (λ cs. (returns tt, record v { calls = cs })) (append_assoc v.calls _ _))
      | inr other ↦ rw other (each callbacks v)
    ]
