-- ===== src/References/Run.antt =====
-- The next reference that `_make_ref` of realtime/_async/client.py makes after other calls.
use realtime_py.Prelude.{ℕ, ◌+◌, ◌≤◌, ◌≡◌, ◌∙◌, String, false, Bool-cases, inl, inr, arith}
use realtime_py.Prelude.Dict.{contains}
use realtime_py.Prelude.Decimal.{decimal, decimal_injective}
use realtime_py.World.{World, returns}
use realtime_py.Socket.{make_ref}
use realtime_py.References.{Past, Past-Stable}
use realtime_py.Stable.Run.{Reachable, Reachable-keeps}

pub Past-make_ref :
    {w w' : World} {ref : String}
    → Past w
    → make_ref w ≡ (returns ref, w')
    → (c : ℕ) → contains ref (w.channel_at c).messages_waiting_for_ack ≡ false
unfolding make_ref
Past-make_ref {w} {ref} h made c =
    let now : decimal (w.ref + 1) ≡ ref = cc made in
    elim (Bool-cases (contains ref (w.channel_at c).messages_waiting_for_ack)) [
      | inr free ↦ free
      | inl taken ↦ absurd (too_large now (h.past c ref taken))
    ]
  where
    too_large : decimal (w.ref + 1) ≡ ref → (k : ℕ) × (k ≤ w.ref) × (ref ≡ decimal k) → ⊥
    too_large now (k, below, e) = omega (arith, decimal_injective (w.ref + 1) k (now ∙ e))

-- From a state in which each reference that waits is the text of a number up to the counter, after any
-- of the calls of `Action` in any order, the next reference that the client makes is one under which
-- no push waits in any channel.
pub make_ref_is_fresh :
    {fuel : ℕ} {start w w' : World} {ref : String}
    → Past start
    → Reachable fuel start w
    → make_ref w ≡ (returns ref, w')
    → (c : ℕ) → contains ref (w.channel_at c).messages_waiting_for_ack ≡ false
make_ref_is_fresh h r made = Past-make_ref (Reachable-keeps Past h r) made
