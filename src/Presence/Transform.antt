-- ===== src/Presence/Transform.antt =====
-- `_transform_state` and the two event handlers. A meta of the server is a dict of JSON values, of
-- which `V` is the type. `none` is the `KeyError` of `presence.pop("phx_ref")`.
pub mod Fields
pub mod Entries
pub mod Events
use realtime_py.Prelude.{
  String, Option, none, some, List, [], ◌∷◌, ◌++◌, Eq, option_eq, if◌then◌else◌,
}
use realtime_py.Prelude.Dict.{Dict, lookup, contains, insert, erase}
use realtime_py.Presence.{AsyncRealtimePresence, Call, call_sync, sync_state, sync_diff}

infixl 5 ◌>>=◌
abbrev pub ◌>>=◌ : {A B : Type 0} → Option A → (A → Option B) → Option B
none >>= f = none
some a >>= f = f a

module _ {V : Type 0} where
  -- d.update(items)
  unfoldable pub update : Dict V → Dict V → Dict V
  update d [] = d
  update d ((k, v) ∷ items) = update (insert k v d) items

  -- `if "phx_ref_prev" in presence: del presence["phx_ref_prev"]`
  unfoldable pub drop_prev : Dict V → Dict V
  drop_prev presence =
      if contains "phx_ref_prev" presence then erase "phx_ref_prev" presence else presence

  -- The body of the inner loop.
  unfoldable pub transform_meta : Dict V → Option (Dict V)
  transform_meta meta = do
    let presence = drop_prev meta
    phx_ref ← lookup "phx_ref" presence
    some (update (("presence_ref", phx_ref) ∷ []) (erase "phx_ref" presence))

  unfoldable pub transform_metas : List (Dict V) → Option (List (Dict V))
  transform_metas [] = some []
  transform_metas (meta ∷ metas) = do
    new_presence ← transform_meta meta
    presences ← transform_metas metas
    some (new_presence ∷ presences)

  unfoldable pub transform_all :
      Dict (List (Dict V)) → Dict (List (Dict V)) → Option (Dict (List (Dict V)))
  transform_all [] new_state = some new_state
  transform_all ((key, metas) ∷ state) new_state = do
    presences ← transform_metas metas
    transform_all state (insert key presences new_state)

  -- `_transform_state`: an entry is given by its list `metas`.
  unfoldable pub transform_state : Dict (List (Dict V)) → Option (Dict (List (Dict V)))
  transform_state state = transform_all state []

  -- `presence["presence_ref"]`
  abbrev pub presence_ref : Dict V → Option V
  presence_ref = lookup "presence_ref"

-- `RawPresenceDiff`
pub record RawPresenceDiff (V : Type 0) : Type 0 where
  pub joins : Dict (List (Dict V))
  pub leaves : Dict (List (Dict V))

module _ {V : Type 0} ⦃e : Eq V⦄ where
  -- `_on_state_event`: the object after the event, and the calls made.
  unfoldable pub on_state_event :
      AsyncRealtimePresence (Dict V)
      → Dict (List (Dict V))
      → Option (AsyncRealtimePresence (Dict V) × List (Call (Dict V)))
  on_state_event p payload = do
    state ← transform_state payload
    let (p', calls) = sync_state presence_ref p state
    some (p', calls ++ call_sync p'.on_sync_callback)

  -- `_on_diff_event`
  unfoldable pub on_diff_event :
      AsyncRealtimePresence (Dict V)
      → RawPresenceDiff V
      → Option (AsyncRealtimePresence (Dict V) × List (Call (Dict V)))
  on_diff_event p payload = do
    joins ← transform_state payload.joins
    leaves ← transform_state payload.leaves
    let (p', calls) = sync_diff presence_ref p joins leaves
    some (p', calls ++ call_sync p'.on_sync_callback)
