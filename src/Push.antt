-- ===== src/Push.antt =====
-- realtime/_async/push.py: what a push does without sending.
pub mod Timeout
pub mod Late
use realtime_py.Prelude.{
  ◌+◌, ℕ, String, Bool, true, false, Option, none, some, List, [], ◌∷◌, ◌++◌, if◌then◌else◌,
  get_elem?,
}
use realtime_py.Prelude.Dict.{contains, erase, insert}
use realtime_py.Types.{RealtimeAcknowledgementStatus, Payload}
use realtime_py.Timer.{TaskState, Task, cancel, create_task, start_timer, end_timer}
use realtime_py.World.{
  World, Channel, Push, Hook, Job, Response, nothing, join_timeout, user_hook, run_push_timeout,
  set_push, type_error, M, ⊤, Outcome, returns, raises, pure, raise, gets, modify, continue, ◌>>=◌,
  ◌>>◌, skip, for_each, modify_channel, modify_push,
}
use realtime_py.Channel.{run_hook}

abbrev pub status_eq : RealtimeAcknowledgementStatus → RealtimeAcknowledgementStatus → Bool
status_eq RealtimeAcknowledgementStatus.ok RealtimeAcknowledgementStatus.ok = true
status_eq RealtimeAcknowledgementStatus.error RealtimeAcknowledgementStatus.error = true
status_eq RealtimeAcknowledgementStatus.timeout RealtimeAcknowledgementStatus.timeout = true
status_eq _ _ = false

-- `AsyncPush.__init__`
abbrev pub fresh_push : ℕ → String → Payload → ℕ → Push
fresh_push c event payload timeout = record {
  channel = c;
  event = event;
  payload = payload;
  timeout = timeout;
  ref = none;
  received_resp = none;
  sent = false;
  timeout_task = none;
  ok_callbacks = [];
  error_callbacks = [];
  timeout_callbacks = [];
}

-- The number of a new push in the store.
unfoldable pub new_push : ℕ → String → Payload → ℕ → M ℕ
new_push c event payload timeout w = (
  returns w.next_push,
  record (set_push w.next_push (fresh_push c event payload timeout) w) {
    next_push = w.next_push + 1;
  },
)

-- `{**self.payload, **payload}`
unfoldable pub merge_payload : Payload → Payload → Payload
merge_payload old [] = old
merge_payload old ((k, v) ∷ new) = merge_payload (insert k v old) new

unfoldable pub update_payload : ℕ → Payload → M ⊤
update_payload p payload =
    modify_push p (λ ps. record ps { payload = merge_payload ps.payload payload })

unfoldable pub start_timeout : ℕ → M ⊤
start_timeout p w =
    let ps = w.push_at p in
    elim ps.timeout_task [
      | some _ ↦ (returns tt, w)
      | none ↦
          let (tasks, i) = create_task (run_push_timeout p) ps.timeout w.tasks in
          (
            returns tt,
            record (set_push p (record ps { timeout_task = some i }) w) { tasks = tasks },
          )
    ]

unfoldable pub cancel_timeout : ℕ → M ⊤
cancel_timeout p w =
    let ps = w.push_at p in
    elim ps.timeout_task [
      | none ↦ (returns tt, w)
      | some i ↦ (
        returns tt,
        record (set_push p (record ps { timeout_task = none }) w) { tasks = cancel i w.tasks },
      )
    ]

unfoldable pub destroy : ℕ → M ⊤
destroy p = cancel_timeout p

abbrev pub callbacks_of : RealtimeAcknowledgementStatus → Push → List Hook
callbacks_of RealtimeAcknowledgementStatus.ok ps = ps.ok_callbacks
callbacks_of RealtimeAcknowledgementStatus.error ps = ps.error_callbacks
callbacks_of RealtimeAcknowledgementStatus.timeout ps = ps.timeout_callbacks

unfoldable pub trigger : ℕ → RealtimeAcknowledgementStatus → Response → M ⊤
trigger p status response = do
  modify_push p (λ ps. record ps { received_resp = some (status, response) })
  callbacks ← gets (λ w. callbacks_of status (w.push_at p))
  for_each (λ h. run_hook h response) callbacks

abbrev pub add_callback : RealtimeAcknowledgementStatus → Hook → Push → Push
add_callback RealtimeAcknowledgementStatus.ok h ps = record ps {
  ok_callbacks = ps.ok_callbacks ++ h ∷ [];
}
add_callback RealtimeAcknowledgementStatus.error h ps = record ps {
  error_callbacks = ps.error_callbacks ++ h ∷ [];
}
add_callback RealtimeAcknowledgementStatus.timeout h ps = record ps {
  timeout_callbacks = ps.timeout_callbacks ++ h ∷ [];
}

-- Whether a callback for the status can be called with the response. A user's callback for a timeout
-- has no parameter (`Callback[[], None]`), nor has `on_join_push_timeout` of the channel.
abbrev pub takes_response : RealtimeAcknowledgementStatus → Hook → Bool
takes_response RealtimeAcknowledgementStatus.timeout (join_timeout c) = false
takes_response RealtimeAcknowledgementStatus.timeout (user_hook f) = false
takes_response _ h = true

-- `callback(received[1])`
unfoldable pub call_with : RealtimeAcknowledgementStatus → Hook → Response → M ⊤
call_with status h response =
    if takes_response status h then run_hook h response else raise type_error

unfoldable pub receive : ℕ → RealtimeAcknowledgementStatus → Hook → M ⊤
receive p status h w = elim (w.push_at p).received_resp [
  | none ↦ modify_push p (add_callback status h) w
  | some (s, response) ↦
      if status_eq s status
      then call_with status h response w
      else modify_push p (add_callback status h) w
]

-- `if self.ref and self.ref in self.channel.messages_waiting_for_ack: del ...`
abbrev pub forget : Option String → Channel → Channel
forget none ch = ch
forget (some ref) ch =
    if contains ref ch.messages_waiting_for_ack
    then record ch { messages_waiting_for_ack = erase ref ch.messages_waiting_for_ack }
    else ch

-- The task of `start_timeout`, past its sleep.
unfoldable pub timeout_elapsed : ℕ → M ⊤
timeout_elapsed p = do
  trigger p RealtimeAcknowledgementStatus.timeout nothing
  ps ← gets (λ w. w.push_at p)
  modify_channel ps.channel (forget ps.ref)

-- The push whose timeout is due, if the task waits in its sleep.
abbrev pub due : Option (Task Job) → Option ℕ
due none = none
due (some t) = elim t.state [
  | TaskState.pending ↦ elim t.job [ run_push_timeout p ↦ some p | _ ↦ none ]
  | _ ↦ none
]

-- The sleep of the task with this number is over: a task that was cancelled, or that is not the timeout
-- of a push, does nothing here.
unfoldable pub wake_timeout : ℕ → M ⊤
wake_timeout i w = elim (due (get_elem? w.tasks i)) [
  | none ↦ (returns tt, w)
  | some p ↦
      (modify (λ v. record v { tasks = start_timer i v.tasks })
          >> timeout_elapsed p
          >> modify (λ v. record v { tasks = end_timer i v.tasks }))
        w
]
