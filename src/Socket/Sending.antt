-- ===== src/Socket/Sending.antt =====
-- Sending in realtime/_async/client.py and push.py: while the connection is closed, once it is back,
-- and when it closes during a send.
use realtime_py.Prelude.{
  append_assoc, append_nil, if_true, if_false, ◌≡◌, refl, true, false, not, ◌&&◌, List, [], ◌∷◌,
  ◌++◌, arith, ap, ◌∙◌, sym, is_empty, Bool-cases, inl, inr,
}
use realtime_py.Types.{Message}
use realtime_py.World.{World, M, ⊤, Outcome, returns, continue, ◌>>◌, for_each}
use realtime_py.Socket.{answer, send_message, send, flush_send_buffer}

abbrev pub send_all : M ⊤ → List Message → M ⊤
send_all closed messages = for_each (send closed) messages

module _ (closed : M ⊤) where
  send_closed :
      (m : Message) (w : World)
      → w.is_connected ≡ false
      → send closed m w ≡ (returns tt, record w { send_buffer = w.send_buffer ++ m ∷ [] })
  unfolding send
  send_closed m w h = simp h

  pub send_open :
      (m : Message) (w : World)
      → w.is_connected ≡ true
      → w.send_outcomes ≡ []
      → send_message closed m w
        ≡ (returns tt, record w { wire = w.wire ++ m ∷ []; send_outcomes = [] })
  unfolding send_message answer
  send_open m w h accepts = simp (h, accepts)

  -- Messages that are sent while the connection is closed go to the end of the buffer, in the order in
  -- which they are sent; no call raises, and nothing else changes.
  pub send-buffers :
      (messages : List Message) (w : World)
      → w.is_connected ≡ false
      → send_all closed messages w
        ≡ (returns tt, record w { send_buffer = w.send_buffer ++ messages })
  send-buffers [] w h =
      ap (λ b. (returns tt, record w { send_buffer = b })) (sym (append_nil w.send_buffer))
  send-buffers (m ∷ ms) w h =
      ap (continue (λ _. send_all closed ms)) (send_closed m w h)
      ∙ (send-buffers ms (record w { send_buffer = w.send_buffer ++ m ∷ [] }) h
          ∙ ap (λ b. (returns tt, record w { send_buffer = b }))
              (append_assoc w.send_buffer (m ∷ []) ms))

  pub all_taken :
      (messages : List Message) (w : World)
      → w.is_connected ≡ true
      → w.send_outcomes ≡ []
      → for_each (send_message closed) messages w
        ≡ (returns tt, record w { wire = w.wire ++ messages; send_outcomes = [] })
  all_taken [] w h accepts =
      let p = sym (append_nil w.wire) in
      λ i. (returns tt, record w { wire = p i; send_outcomes = accepts i })
  all_taken (m ∷ ms) w h accepts =
      ap (continue (λ _. for_each (send_message closed) ms)) (send_open m w h accepts)
      ∙ (all_taken ms (record w { wire = w.wire ++ m ∷ []; send_outcomes = [] }) h refl
          ∙ ap (λ b. (returns tt, record w { wire = b; send_outcomes = [] }))
              (append_assoc w.wire (m ∷ []) ms))

  -- While the socket takes every message, a connected client puts the messages of its buffer on the
  -- wire, each once and in order, and empties the buffer.
  pub flush_send_buffer_lem :
      (w : World)
      → w.is_connected ≡ true
      → w.send_outcomes ≡ []
      → flush_send_buffer closed w ≡ (
        returns tt,
        record w { wire = w.wire ++ w.send_buffer; send_buffer = []; send_outcomes = [] },
      )
  unfolding flush_send_buffer
  flush_send_buffer_lem w h accepts = elim (Bool-cases (is_empty w.send_buffer)) [
    | inl empty ↦ if_false _ (quiet empty) ∙ unchanged empty
    | inr full ↦
        if_true _ (loud full)
        ∙ ap (continue (λ _ (v : World). (returns tt, record v { send_buffer = [] })))
            (all_taken w.send_buffer w h accepts)
  ]
    where
      quiet :
          is_empty w.send_buffer ≡ true → (w.is_connected && not (is_empty w.send_buffer)) ≡ false
      quiet empty = ground arith

      loud :
          is_empty w.send_buffer ≡ false → (w.is_connected && not (is_empty w.send_buffer)) ≡ true
      loud full = ground arith

      none_left : (ms : List Message) → is_empty ms ≡ true → ms ≡ []
      none_left ms e = ground arith

      unchanged :
          is_empty w.send_buffer ≡ true
          → ◌≡◌ {A = Outcome ⊤ × World}
              (returns tt, w)
              (
                returns tt,
                record w { wire = w.wire ++ w.send_buffer; send_buffer = []; send_outcomes = [] },
              )
      unchanged empty =
          let q = none_left w.send_buffer empty in
          let p : w.wire ≡ w.wire ++ w.send_buffer = rw q (sym (append_nil w.wire)) in
          λ i. (returns tt, record w { wire = p i; send_buffer = q i; send_outcomes = accepts i })

  -- While the client is connected and the socket takes every message, the buffer plays no part: a
  -- message that is sent goes on the wire before those that still wait in the buffer.
  pub send-overtakes :
      (m : Message) (w : World)
      → w.is_connected ≡ true
      → w.send_outcomes ≡ []
      → let (r, w') = (send closed m >> flush_send_buffer closed) w in
        (r ≡ returns tt) × (w'.wire ≡ (w.wire ++ m ∷ []) ++ w.send_buffer)
  unfolding send
  send-overtakes m w h accepts =
      rw
        (if_true (returns tt, record w { send_buffer = w.send_buffer ++ m ∷ [] }) h
          ∙ send_open m w h accepts)
        (rw
          (flush_send_buffer_lem (record w { wire = w.wire ++ m ∷ []; send_outcomes = [] }) h refl)
          (refl, refl))
