-- ===== src/World/Objects.antt =====
-- Pushes, channels, the client, and the store that holds them.
use realtime_py.Prelude.{
  ℕ, ◌≡◌, refl, ap, ◌∙◌, inl, inr, Bool-cases, ==_iff, ◌≢◌, arith, String, Bool, Option, List, ◌==◌,
  if◌then◌else◌,
}
use realtime_py.Prelude.Dict.{Dict}
use realtime_py.Types.{
  Json, ChannelStates, RealtimeSubscribeStates, RealtimeAcknowledgementStatus, BroadcastPayload,
  BroadcastCallback, PostgresChangesPayload, PostgresChangesCallback, PostgresRowChange, Payload,
  Message,
}
use realtime_py.Timer.{Timer, Tasks}
use realtime_py.Presence.{AsyncRealtimePresence, Call}

-- What `AsyncPush` hands to its callbacks.
pub data Response : Type 0 where
  changes : Option (List PostgresRowChange) → Response
  details : Json → Response
  nothing : Response

-- The functions that the program or its user gives to `AsyncPush.receive`, with what they close over.
pub data Hook : Type 0 where
  join_ok join_timeout leave_close : ℕ → Hook
  subscribe_ok : ℕ → Option ℕ → Hook
  subscribe_error subscribe_timeout : Option ℕ → Hook
  user_hook : ℕ → Hook

pub record Push : Type 0 where
  pub channel : ℕ
  pub event : String
  pub payload : Payload
  pub timeout : ℕ
  pub ref : Option String
  pub received_resp : Option (RealtimeAcknowledgementStatus × Response)
  pub sent : Bool
  pub timeout_task : Option ℕ
  pub ok_callbacks : List Hook
  pub error_callbacks : List Hook
  pub timeout_callbacks : List Hook

-- `self.params["config"]`
pub record ChannelConfig : Type 0 where
  pub broadcast : Option Json
  pub presence : Option Json
  pub private : Bool

pub record Channel : Type 0 where
  pub topic : String
  pub params : ChannelConfig
  pub joined_once : Bool
  pub presence : AsyncRealtimePresence (Dict Json)
  pub state : ChannelStates
  pub push_buffer : List ℕ
  pub timeout : ℕ
  pub join_push : ℕ
  pub messages_waiting_for_ack : Dict ℕ
  pub broadcast_callbacks : List BroadcastCallback
  pub system_callbacks : List ℕ
  pub postgres_changes_callbacks : List PostgresChangesCallback
  pub rejoin_timer : Timer

-- What the tasks of the program run.
pub data Job : Type 0 where
  run_rejoin_timer : ℕ → Job
  run_push_timeout : ℕ → Job
  run_send : ℕ → Job
  run_unsubscribe : ℕ → Job
  run_listen : Job
  run_heartbeat : Job

-- A call of a user's function.
pub data UserCall : Type 0 where
  subscribe_called : ℕ → RealtimeSubscribeStates → UserCall
  hook_called : ℕ → Response → UserCall
  system_called : ℕ → Json → UserCall
  broadcast_called : ℕ → BroadcastPayload → UserCall
  postgres_called : ℕ → PostgresChangesPayload → UserCall
  presence_called : Call (Dict Json) → UserCall

-- How the library `websockets` answers a `send`.
pub data SendOutcome : Type 0 where
  sent closed_error closed_ok : SendOutcome

-- The client, the objects by number, the tasks; what the socket took, what it will answer, what was
-- slept, and the calls of user functions so far.
pub record World : Type 0 where
  pub is_connected : Bool
  pub ref : ℕ
  pub auto_reconnect : Bool
  pub max_retries : ℕ
  pub initial_backoff : ℕ
  pub timeout : ℕ
  pub hb_interval : ℕ
  pub access_token : Option String
  pub channels : Dict ℕ
  pub send_buffer : List Message
  pub listen_task : Option ℕ
  pub heartbeat_task : Option ℕ
  pub next_channel : ℕ
  pub channel_at : ℕ → Channel
  pub next_push : ℕ
  pub push_at : ℕ → Push
  pub tasks : Tasks Job
  pub wire : List Message
  pub calls : List UserCall
  pub send_outcomes : List SendOutcome
  pub dial_outcomes : List Bool
  pub slept : List ℕ

unfoldable pub put_at {ℓ} : {A : Type ℓ} → ℕ → A → (ℕ → A) → ℕ → A
put_at i a f j = if i == j then a else f j

abbrev pub set_channel : ℕ → Channel → World → World
set_channel c ch w = record w { channel_at = put_at c ch w.channel_at }

abbrev pub set_push : ℕ → Push → World → World
set_push p ps w = record w { push_at = put_at p ps w.push_at }

pub put_at_self {ℓ} : {A : Type ℓ} (i : ℕ) (a : A) (f : ℕ → A) → put_at i a f i ≡ a
unfolding put_at
put_at_self i a f = ground arith

pub put_at_ne {ℓ} : {A : Type ℓ} (i j : ℕ) (a : A) (f : ℕ → A) → i ≢ j → put_at i a f j ≡ f j
unfolding put_at
put_at_ne i j a f h = ground arith

-- A field of one object that is replaced by one with the same field.
pub put_at-field {ℓ κ} :
    {A : Type ℓ} {B : Type κ} (f : A → B) (i : ℕ) (a : A) (g : ℕ → A) (j : ℕ)
    → f a ≡ f (g i)
    → f (put_at i a g j) ≡ f (g j)
unfolding put_at
put_at-field f i a g j e = elim (Bool-cases (i == j)) [
  | inl same ↦
      let there : i ≡ j = (==_iff i j).0 same in
      rw (put_at, same, if◌then◌else◌) (e ∙ ap (λ k. f (g k)) there)
  | inr other ↦ rw (put_at, other, if◌then◌else◌) refl
]
