-- ===== src/Push/Timeout.antt =====
-- The callbacks and the timeout of a push: it is started once, no reply stops it, and what it does when
-- it elapses.
use realtime_py.Prelude.{ℕ, ◌≡◌, refl, ap, if◌then◌else◌, Option, none, some, List, arith}
use realtime_py.Types.{
  RealtimeAcknowledgementStatus, RealtimeSubscribeStates, ChannelStates, PostgresRowChange,
}
use realtime_py.World.{
  returns, ⊤, Outcome, modify_push, World, Job, UserCall, Channel, Push, Hook, Response, join_ok,
  join_timeout, subscribe_ok, subscribe_timeout, leave_close, subscribe_error, user_hook, set_push,
  gets, ◌>>=◌, put_at, for_each, modify_channel,
}
use realtime_py.World.Keeps.{Keeps, Keeps-bind, Keeps-for_each, Keeps-gets, keeps_rules}
use realtime_py.Channel.{
  run_hook, on_join_ok, on_join_timeout, on_close, on_subscribe_ok, call_subscriber, call_user,
  set_state, spawn, reset_rejoin_timer, schedule_rejoin, remove_from_client,
}
use realtime_py.Push.{
  start_timeout, trigger, callbacks_of, receive, add_callback, call_with, status_eq,
}

-- No callback that a push runs touches a push.
module _ (pushes : ℕ → Push) where
  abbrev Same : World → Type 0
  Same w = w.push_at ≡ pushes

  modify_channel-Same : (c : ℕ) (f : Channel → Channel) → Keeps Same (modify_channel c f)
  modify_channel-Same c f = record { at = λ w h. h }

  set_state-Same : (c : ℕ) (s : ChannelStates) → Keeps Same (set_state c s)
  unfolding set_state
  set_state-Same c s = record { at = λ w h. h }

  spawn-Same : (job : Job) → Keeps Same (spawn job)
  unfolding spawn
  spawn-Same job = record { at = λ w h. h }

  call_user-Same : (call : UserCall) → Keeps Same (call_user call)
  unfolding call_user
  call_user-Same call = record { at = λ w h. h }

  reset_rejoin_timer-Same : (c : ℕ) → Keeps Same (reset_rejoin_timer c)
  unfolding reset_rejoin_timer
  reset_rejoin_timer-Same c = record { at = λ w h. h }

  schedule_rejoin-Same : (c : ℕ) → Keeps Same (schedule_rejoin c)
  unfolding schedule_rejoin
  schedule_rejoin-Same c = record { at = λ w h. h }

  remove_from_client-Same : (c : ℕ) → Keeps Same (remove_from_client c)
  unfolding remove_from_client
  remove_from_client-Same c = record { at = λ w h. ground arith }

  ruleset same_rules = (
    keeps_rules, modify_channel-Same, set_state-Same, spawn-Same, call_user-Same,
    reset_rejoin_timer-Same, schedule_rejoin-Same, remove_from_client-Same,
  )

  on_join_ok-Same : (c : ℕ) → Keeps Same (on_join_ok c)
  unfolding on_join_ok
  on_join_ok-Same c = search same_rules depth 9

  on_join_timeout-Same : (c : ℕ) → Keeps Same (on_join_timeout c)
  unfolding on_join_timeout set_state schedule_rejoin
  on_join_timeout-Same c = record { at = λ w h. ground arith }

  on_close-Same : (c : ℕ) → Keeps Same (on_close c)
  unfolding on_close
  on_close-Same c = search same_rules

  call_subscriber-Same :
      (f : Option ℕ) (s : RealtimeSubscribeStates) → Keeps Same (call_subscriber f s)
  unfolding call_subscriber
  call_subscriber-Same none s = search same_rules
  call_subscriber-Same (some f) s = search same_rules

  on_subscribe_ok-Same :
      (c : ℕ) (f : Option ℕ) (xs : Option (List PostgresRowChange))
      → Keeps Same (on_subscribe_ok c f xs)
  unfolding on_subscribe_ok spawn
  on_subscribe_ok-Same c f xs = record {
    at = λ w h. grind (
      arith,
      (call_subscriber-Same f RealtimeSubscribeStates.subscribed).at,
      (call_subscriber-Same f RealtimeSubscribeStates.channel_error).at,
    );
  }

  pub run_hook-Same : (h : Hook) (r : Response) → Keeps Same (run_hook h r)
  unfolding run_hook
  run_hook-Same (join_ok c) r = on_join_ok-Same c
  run_hook-Same (join_timeout c) r = on_join_timeout-Same c
  run_hook-Same (leave_close c) r = on_close-Same c
  run_hook-Same (subscribe_ok c f) r = on_subscribe_ok-Same c f _
  run_hook-Same (subscribe_error f) r = call_subscriber-Same f _
  run_hook-Same (subscribe_timeout f) r = call_subscriber-Same f _
  run_hook-Same (user_hook f) r = call_user-Same _

  run_callbacks-Same :
      (p : ℕ) (status : RealtimeAcknowledgementStatus) (r : Response)
      → Keeps Same (gets (λ w. callbacks_of status (w.push_at p)) >>= for_each (λ h. run_hook h r))
  run_callbacks-Same p status r =
      Keeps-bind (Keeps-gets _) (λ callbacks. Keeps-for_each callbacks (λ h. run_hook-Same h r))

-- When a push is triggered it holds the answer afterwards, whatever its callbacks do, and nothing
-- else of it changes, its timeout included; nor does any other push.
pub trigger-push_at :
    (p : ℕ) (status : RealtimeAcknowledgementStatus) (r : Response) (w : World)
    → (trigger p status r w).1.push_at
      ≡ put_at p (record (w.push_at p) { received_resp = some (status, r) }) w.push_at
unfolding trigger
trigger-push_at p status r w =
    (run_callbacks-Same _ p status r).at
      (set_push p (record (w.push_at p) { received_resp = some (status, r) }) w) refl

-- What starting a timeout leaves as it was.
pub start_timeout_lem :
    (p : ℕ) (v : World)
    → (u : World) × (start_timeout p v ≡ (returns tt, u))
      × (u.channel_at ≡ v.channel_at)
      × (u.is_connected ≡ v.is_connected)
      × (u.send_outcomes ≡ v.send_outcomes)
      × (u.wire ≡ v.wire)
unfolding start_timeout
start_timeout_lem p v =
    ((start_timeout p v).1, ground arith, ground arith, ground arith, ground arith, ground arith)

-- A push without a reply takes the callback.
pub receive_waits :
    (p : ℕ) (status : RealtimeAcknowledgementStatus) (h : Hook) (w : World)
    → (w.push_at p).received_resp ≡ none
    → receive p status h w ≡ (returns tt, set_push p (add_callback status h (w.push_at p)) w)
unfolding receive
receive_waits p status h w e =
    ap
      (λ (o : Option (RealtimeAcknowledgementStatus × Response)).
        elim o as (λ _. Outcome ⊤ × World) [
          | none ↦ modify_push p (add_callback status h) w
          | some (status', response) ↦
              if status_eq status' status
              then call_with status h response w
              else modify_push p (add_callback status h) w
        ])
      e
