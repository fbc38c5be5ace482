-- ===== src/Push/Late.antt =====
-- The timeout of a push that was answered.
use realtime_py.Prelude.{
  ℕ, map, get_elem?, ◌≢◌, String, ◌≡◌, refl, Option, none, some, List, [], ◌∷◌, ◌++◌, arith, ap,
  ◌∙◌,
}
use realtime_py.Types.{RealtimeAcknowledgementStatus, RealtimeSubscribeStates, ChannelStates}
use realtime_py.World.{
  World, Job, run_push_timeout, continue, modify, Channel, Push, Hook, Response, changes, nothing,
  join_ok, subscribe_ok, join_timeout, subscribe_timeout, set_push, returns, put_at, put_at_self,
  for_each, subscribe_called,
}
use realtime_py.Channel.{on_subscribe_ok, run_hook, on_join_timeout, call_subscriber, call_user}
use realtime_py.Timer.{TaskState, Task, Tasks, reset, start_timer, end_timer}
use realtime_py.Timer.Others.{reset-others}
use realtime_py.Push.{trigger, timeout_elapsed, forget, wake_timeout}
use realtime_py.Push.Timeout.{trigger-push_at}
use realtime_py.Channel.States.{on_join_ok_lem, send_task}

module _ (p c f : ℕ) (w : World)
    (hooks : (w.push_at p).timeout_callbacks ≡ join_timeout c ∷ subscribe_timeout (some f) ∷ [])
    (is_joined : (w.channel_at c).state ≡ ChannelStates.joined) where
  answered : Push
  answered = record (w.push_at p) {
    received_resp = some (RealtimeAcknowledgementStatus.timeout, nothing);
  }

  trigger-timeout : trigger p RealtimeAcknowledgementStatus.timeout nothing w ≡ (
    returns tt,
    record (set_push p answered w) {
      calls = w.calls ++ subscribe_called f RealtimeSubscribeStates.timed_out ∷ [];
    },
  )
  unfolding trigger run_hook on_join_timeout call_subscriber call_user answered
  trigger-timeout = rw (put_at_self p answered w.push_at, hooks, is_joined) refl

  forget-state : (ref : Option String) (ch : Channel) → (forget ref ch).state ≡ ch.state
  forget-state none ch = refl
  forget-state (some ref) ch = ground arith

  put_at-state :
      (d : ℕ) (ch : Channel) (chs : ℕ → Channel)
      → ch.state ≡ (chs d).state
      → (put_at d ch chs c).state ≡ (chs c).state
  unfolding put_at
  put_at-state d ch chs h = ground arith

  -- If the timeout of a push with the callbacks of a subscription elapses while the channel is joined,
  -- the channel stays joined, and its user is told TIMED_OUT and nothing else.
  pub timeout_while_joined :
      let (r, w') = timeout_elapsed p w in
      (r ≡ returns tt)
      × (w'.calls ≡ w.calls ++ subscribe_called f RealtimeSubscribeStates.timed_out ∷ [])
      × ((w'.channel_at c).state ≡ ChannelStates.joined)
  unfolding timeout_elapsed
  timeout_while_joined =
      rw (trigger-timeout, timeout_elapsed)
        (refl, refl, put_at-state _ _ w.channel_at (forget-state _ _) ∙ is_joined)

abbrev success : Response
success = changes none

-- The tasks after the success of a join of the channel.
abbrev after_join : ℕ → World → Tasks Job
after_join c w =
    let ch = w.channel_at c in (reset ch.rejoin_timer w.tasks).1 ++ map send_task ch.push_buffer

joined_then_told :
    (c f : ℕ) (v : World)
    → let w' =
        (for_each (λ h. run_hook h success) (join_ok c ∷ subscribe_ok c (some f) ∷ []) v).1 in
      (w'.calls ≡ v.calls ++ subscribe_called f RealtimeSubscribeStates.subscribed ∷ [])
      × ((w'.channel_at c).state ≡ ChannelStates.joined)
      × (w'.tasks ≡ after_join c v)
unfolding run_hook on_subscribe_ok call_subscriber call_user
joined_then_told c f v =
    let (v', e, ch, tasks, calls, others) = on_join_ok_lem c v in
    rw e (
      ap (λ cs. cs ++ subscribe_called f RealtimeSubscribeStates.subscribed ∷ []) calls,
      rw (put_at_self, ch) refl,
      tasks,
    )

trigger-ok :
    (p : ℕ) (w : World) (hooks : List Hook)
    → (w.push_at p).ok_callbacks ≡ hooks
    → trigger p RealtimeAcknowledgementStatus.ok success w
      ≡ for_each
          (λ h. run_hook h success)
          hooks
          (set_push p
            (record (w.push_at p) {
              received_resp = some (RealtimeAcknowledgementStatus.ok, success);
            })
            w)
unfolding trigger
trigger-ok p w hooks oks =
    ap
      (λ hs.
        for_each (λ h. run_hook h success) hs
          (set_push p
            (record (w.push_at p) {
              received_resp = some (RealtimeAcknowledgementStatus.ok, success);
            })
            w))
      (rw put_at_self oks)

-- The success of a join without bindings, as the callbacks of a subscription take it.
join_succeeds :
    (p c f : ℕ) (w : World)
    → (w.push_at p).ok_callbacks ≡ join_ok c ∷ subscribe_ok c (some f) ∷ []
    → let w' = (trigger p RealtimeAcknowledgementStatus.ok success w).1 in
      (w'.calls ≡ w.calls ++ subscribe_called f RealtimeSubscribeStates.subscribed ∷ [])
      × ((w'.channel_at c).state ≡ ChannelStates.joined)
      × (w'.tasks ≡ after_join c w)
join_succeeds p c f w oks =
    rw (trigger-ok p w (join_ok c ∷ subscribe_ok c (some f) ∷ []) oks) (joined_then_told c f _)

-- The task of a timeout that waits, as `start_timeout` makes it.
abbrev pub timeout_task_of : ℕ → ℕ → Task Job
timeout_task_of p delay = record {
  job = run_push_timeout p;
  delay = delay;
  state = TaskState.pending;
}

-- A task that waits for the timeout of a push runs it when its sleep is over.
wake_timeout_lem :
    (i p delay : ℕ) (w v : World)
    → get_elem? w.tasks i ≡ some (timeout_task_of p delay)
    → timeout_elapsed p (record w { tasks = start_timer i w.tasks }) ≡ (returns tt, v)
    → wake_timeout i w ≡ (returns tt, record v { tasks = end_timer i v.tasks })
unfolding wake_timeout
wake_timeout_lem i p delay w v waits elapsed =
    rw (wake_timeout, waits)
      (ap (continue (λ _. modify (λ v. record v { tasks = end_timer i v.tasks }))) elapsed)

-- A reply does not stop the timeout of a push: if the join push of a subscription is answered with
-- success and no bindings while a task waits for the timeout of that push, one that the rejoin timer
-- of the channel does not name, the task still waits afterwards; the user is told SUBSCRIBED, and when
-- the sleep of the task is over, TIMED_OUT as well, though the channel is still joined.
pub subscribed_then_timed_out :
    (p c f i delay : ℕ) (w : World)
    → (w.push_at p).ok_callbacks ≡ join_ok c ∷ subscribe_ok c (some f) ∷ []
    → (w.push_at p).timeout_callbacks ≡ join_timeout c ∷ subscribe_timeout (some f) ∷ []
    → get_elem? w.tasks i ≡ some (timeout_task_of p delay)
    → (w.channel_at c).rejoin_timer.timer ≢ some i
    → let w1 = (trigger p RealtimeAcknowledgementStatus.ok (changes none) w).1 in
      let (r, w2) = wake_timeout i w1 in
      (get_elem? w1.tasks i ≡ some (timeout_task_of p delay))
      × (r ≡ returns tt)
      × (w2.calls
          ≡ (w.calls ++ subscribe_called f RealtimeSubscribeStates.subscribed ∷ [])
            ++ subscribe_called f RealtimeSubscribeStates.timed_out ∷ [])
      × ((w2.channel_at c).state ≡ ChannelStates.joined)
subscribed_then_timed_out p c f i delay w oks timeouts waits other =
    let (told, state, tasks) = join_succeeds p c f w oks in
    let ch = w.channel_at c in
    let still : get_elem? w1.tasks i ≡ some (timeout_task_of p delay) =
      ap (λ ts. get_elem? ts i) tasks
      ∙ reset-others ch.rejoin_timer w.tasks (map send_task ch.push_buffer) i
          (timeout_task_of p delay) other waits in
    let hooks : (w1.push_at p).timeout_callbacks
        ≡ join_timeout c ∷ subscribe_timeout (some f) ∷ [] =
      rw (trigger-push_at p RealtimeAcknowledgementStatus.ok (changes none) w, put_at_self)
        timeouts in
    let u = record w1 { tasks = start_timer i w1.tasks } in
    let (ends, calls, joined) = timeout_while_joined p c f u hooks state in
    let elapsed : timeout_elapsed p u ≡ (returns tt, (timeout_elapsed p u).1) =
      λ k. (ends k, (timeout_elapsed p u).1) in
    rw (wake_timeout_lem i p delay w1 (timeout_elapsed p u).1 still elapsed) (
      still,
      refl,
      calls ∙ ap (λ cs. cs ++ subscribe_called f RealtimeSubscribeStates.timed_out ∷ []) told,
      joined,
    )
  where
    w1 : World
    w1 = (trigger p RealtimeAcknowledgementStatus.ok (changes none) w).1
