-- ===== src/Channel/States.antt =====
-- The transitions of a channel: joined by the reply to its join, errored, closed.
use mathlib.Core.List.{append-nil, append_assoc}
use realtime_py.Prelude.{
  ℕ, ◌+◌, ◌^◌, ◌≡◌, ◌≢◌, refl, true, false, ◌||◌, none, some, List, [], ◌∷◌, ◌++◌, map, ap, ◌∙◌,
  length, get_elem?, Option-cases, inl, inr,
}
use realtime_py.Prelude.Dict.{lookup, erase}
use realtime_py.Types.{ChannelStates}
use realtime_py.Timer.{TaskState, Task, Tasks, create_task, cancel_some, reset, schedule_timeout}
use realtime_py.World.{
  World, Channel, Job, run_send, run_rejoin_timer, returns, raises, for_each, put_at_self,
  put_at_ne, key_error,
}
use realtime_py.Channel.{
  in_state, set_state, spawn, reset_rejoin_timer, schedule_rejoin, remove_from_client, on_close,
  on_error, on_join_ok,
}

-- The task that `on_join_push_ok` creates for a push of the buffer.
abbrev pub send_task : ℕ → Task Job
send_task p = record { job = run_send p; delay = 0; state = TaskState.pending }

for_each-spawn :
    (ps : List ℕ) (w : World)
    → for_each (λ p. spawn (run_send p)) ps w
      ≡ (returns tt, record w { tasks = w.tasks ++ map send_task ps })
unfolding spawn create_task
for_each-spawn [] w = rw append-nil
for_each-spawn (p ∷ ps) w =
    for_each-spawn ps (record w { tasks = w.tasks ++ send_task p ∷ [] })
    ∙ ap (λ (ts : Tasks Job). (returns tt, record w { tasks = ts }))
        (append_assoc w.tasks (send_task p ∷ []) (map send_task ps))

-- The channel after the reply to its join, where the table of tasks is given.
abbrev pub joined_channel : Channel → Tasks Job → Channel
joined_channel ch tasks = record ch {
  state = ChannelStates.joined;
  rejoin_timer = (reset ch.rejoin_timer tasks).0;
  push_buffer = [];
}

-- When a join is answered with success, `on_join_push_ok` returns; the channel is joined with an empty
-- buffer and a reset rejoin timer; the tasks are those that the reset leaves, and one that sends each
-- push of the buffer, in order; no user function is called, and no other channel changes.
pub on_join_ok_lem :
    (c : ℕ) (w : World)
    → (w' : World) × (on_join_ok c w ≡ (returns tt, w'))
      × (w'.channel_at c ≡ joined_channel (w.channel_at c) w.tasks)
      × (w'.tasks
          ≡ (reset (w.channel_at c).rejoin_timer w.tasks).1
            ++ map send_task (w.channel_at c).push_buffer)
      × (w'.calls ≡ w.calls)
      × ((d : ℕ) → c ≢ d → w'.channel_at d ≡ w.channel_at d)
unfolding on_join_ok set_state reset_rejoin_timer
on_join_ok_lem c w = (
  (on_join_ok c w).1,
  simp (put_at_self, for_each-spawn),
  simp (put_at_self, for_each-spawn),
  simp (put_at_self, for_each-spawn),
  simp (put_at_self, for_each-spawn),
  λ d other.
      simp (for_each-spawn)
        (rw (put_at_ne c d _ _ other, put_at_ne c d _ _ other, put_at_ne c d _ _ other)),
)

-- The rejoin timer names a pending task that runs after the delay of the next try.
pub record RejoinsAfter (c tries : ℕ) (w : World) : Type 0 where
  pub task : ℕ
  pub named : (w.channel_at c).rejoin_timer.timer ≡ some task
  pub counted : (w.channel_at c).rejoin_timer.tries ≡ tries + 1
  pub pending :
      get_elem? w.tasks task
      ≡ some (record {
        job = run_rejoin_timer c;
        delay = 2 ^ (tries + 1 + 1);
        state = TaskState.pending;
      })

get_elem?-append : (ts : Tasks Job) (t : Task Job) → get_elem? (ts ++ t ∷ []) (length ts) ≡ some t
get_elem?-append [] t = refl
get_elem?-append (x ∷ ts) t = get_elem?-append ts t

schedule_rejoin-RejoinsAfter :
    (c : ℕ) (w : World) → RejoinsAfter c (w.channel_at c).rejoin_timer.tries (schedule_rejoin c w).1
unfolding schedule_rejoin schedule_timeout create_task
schedule_rejoin-RejoinsAfter c w = record {
  task = length (cancel_some (w.channel_at c).rejoin_timer.timer w.tasks);
  named = simp put_at_self;
  counted = simp put_at_self;
  pending = get_elem?-append (cancel_some (w.channel_at c).rejoin_timer.timer w.tasks) _;
}

-- An error leaves a channel that is leaving or closed as it is; any other becomes errored, and tries
-- to rejoin after 2 to the power of its tries plus two.
pub on_error_lem :
    (c : ℕ) (w : World)
    → let ch = w.channel_at c in
      let ignored = in_state ChannelStates.leaving ch || in_state ChannelStates.closed ch in
      let w' = (on_error c w).1 in
      (ignored ≡ true → w' ≡ w)
      × (ignored ≡ false
          → ((w'.channel_at c).state ≡ ChannelStates.errored)
            × RejoinsAfter c ch.rejoin_timer.tries w')
unfolding on_error set_state
on_error_lem c w = (
  (λ h. rw (h, on_error)),
  λ h.
      rw (h, on_error)
        (
          errored,
          (rw put_at_self at
              (schedule_rejoin-RejoinsAfter c (set_state c ChannelStates.errored w).1)),
        ),
)
  where
    errored :
        ((schedule_rejoin c (set_state c ChannelStates.errored w).1).1.channel_at c).state
        ≡ ChannelStates.errored
    errored = unfold schedule_rejoin set_state in simp put_at_self

-- What a call of `on_close` has done before it takes the topic off the client.
closing : ℕ → World → World
unfolding set_state reset_rejoin_timer
closing c w = (set_state c ChannelStates.closed (reset_rejoin_timer c w).1).1

on_close-closing : (c : ℕ) (w : World) → on_close c w ≡ remove_from_client c (closing c w)
unfolding on_close closing
on_close-closing c w = refl

closing-topic : (c : ℕ) (w : World) → ((closing c w).channel_at c).topic ≡ (w.channel_at c).topic
unfolding closing
closing-topic c w = simp put_at_self

closing-state : (c : ℕ) (w : World) → ((closing c w).channel_at c).state ≡ ChannelStates.closed
unfolding closing
closing-state c w = simp put_at_self

closing-channels : (c : ℕ) (w : World) → (closing c w).channels ≡ w.channels
unfolding closing
closing-channels c w = refl

remove_known :
    (c d : ℕ) (w : World)
    → lookup (w.channel_at c).topic w.channels ≡ some d
    → remove_from_client c w
      ≡ (returns tt, record w { channels = erase (w.channel_at c).topic w.channels })
unfolding remove_from_client
remove_known c d w h = rw (h, remove_from_client)

remove_missing :
    (c : ℕ) (w : World)
    → lookup (w.channel_at c).topic w.channels ≡ none
    → remove_from_client c w ≡ (raises key_error, w)
unfolding remove_from_client
remove_missing c w h = rw (h, remove_from_client)

-- Closing a channel of the client takes its topic off the client; where the topic is not there, it
-- raises `KeyError` and takes nothing off. In both cases the channel is closed.
pub on_close_lem :
    (c : ℕ) (w : World)
    → let topic = (w.channel_at c).topic in
      let (r, w') = on_close c w in
      ((w'.channel_at c).state ≡ ChannelStates.closed)
      × ((d : ℕ)
          → lookup topic w.channels ≡ some d
          → (r ≡ returns tt) × (w'.channels ≡ erase topic w.channels))
      × (lookup topic w.channels ≡ none → (r ≡ raises key_error) × (w'.channels ≡ w.channels))
on_close_lem c w = elim (Option-cases (lookup (w.channel_at c).topic w.channels)) [
  | inl e ↦
      rw (on_close-closing, remove_missing c (closing c w) (rw (closing-topic, closing-channels) e))
        (closing-state c w, (λ d q. cc), λ _. (refl, closing-channels c w))
  | inr (d, e) ↦
      rw (on_close-closing, remove_known c d (closing c w) (rw (closing-topic, closing-channels) e))
        (closing-state c w, (λ d q. (refl, rw (closing-topic, closing-channels))), λ q. cc)
]
