-- ===== src/Tests/Presences.antt =====
-- Runs of the presence state.
use realtime_py.Prelude.{
  String, ◌≡◌, refl, true, Option, none, some, List, [], ◌∷◌, ◌++◌, elem, is_empty, map, option_eq,
  string_eq,
}
use realtime_py.Prelude.Dict.{Dict, lookup, get_or, insert, IsDict}
use realtime_py.Presence.{
  AsyncRealtimePresence, Call, call_sync, sync_state, sync_diff, refs, join_key, join_all,
  leave_all,
}
use realtime_py.Presence.Synced.{IsState}
use realtime_py.Presence.Follows.{sync_state_follows}
use realtime_py.Presence.Break.{sync_diff_breaks}
use realtime_py.Presence.Transform.{presence_ref, on_state_event, transform_meta, transform_state}
use realtime_py.Presence.Transform.Fields.{transform_meta_fields, field}
use realtime_py.Presence.Transform.Entries.{MatchesEntry, transform_state_total}
use realtime_py.Presence.Transform.Events.{IsRawState, meta_ref, on_state_event_follows}

-- A presence that is its own reference.
abbrev itself : String → String
itself p = p

abbrev present : AsyncRealtimePresence String
present = record {
  state = ("ann", "1" ∷ []) ∷ ("bob", "2" ∷ []) ∷ [];
  on_join_callback = some 1;
  on_leave_callback = some 2;
  on_sync_callback = none;
}

abbrev server : Dict (List String)
server = ("ann", "1" ∷ "3" ∷ []) ∷ []

present-IsState : IsState present.state
unfolding lookup
present-IsState = record { dict = (refl, (refl, tt)); filled = (refl, (refl, tt)) }

server-IsState : IsState server
unfolding lookup
server-IsState = record { dict = (refl, tt); filled = (refl, tt) }

sync_state_follows_example :
    elem "3" (refs itself (get_or "ann" [] (sync_state itself present server).0.state))
    ≡ elem "3" (refs itself (get_or "ann" [] server))
sync_state_follows_example =
    sync_state_follows itself present server present-IsState server-IsState "ann" "3"

abbrev gone : Dict (List String)
gone = ("bob", "2" ∷ []) ∷ []

nobody_empty : is_empty (get_or "cy" [] (sync_diff itself present server []).0.state) ≡ true
unfolding sync_diff join_all leave_all lookup insert join_key
nobody_empty = refl

sync_diff_breaks_example :
    sync_diff itself present server ([] ++ ("cy", "9" ∷ []) ∷ gone)
    ≡ sync_diff itself present server []
sync_diff_breaks_example =
    sync_diff_breaks itself present server [] gone "cy" ("9" ∷ []) nobody_empty

abbrev meta : Dict String
meta = ("phx_ref", "7") ∷ ("name", "Ann") ∷ []

meta-IsDict : IsDict meta
unfolding lookup
meta-IsDict = (refl, (refl, tt))

meta-phx_ref : lookup "phx_ref" meta ≡ some "7"
unfolding lookup
meta-phx_ref = refl

transform_meta_fields_example :
    (presence : Dict String) × (transform_meta meta ≡ some presence)
    × ((k : String) → lookup k presence ≡ field meta "7" k)
transform_meta_fields_example = transform_meta_fields meta "7" meta-IsDict meta-phx_ref

abbrev raw : Dict (List (Dict String))
raw = ("ann", meta ∷ []) ∷ []

raw-IsRawState : IsRawState raw
unfolding lookup
raw-IsRawState = record {
  payload = record { dict = (refl, tt); metas = ((meta-IsDict, tt), tt) };
  has_refs = ((("7", meta-phx_ref), tt), tt);
  filled = (refl, tt);
}

transform_state_total_example :
    (st : Dict (List (Dict String))) × (transform_state raw ≡ some st)
    × IsDict st
    × ((k : String) → MatchesEntry (lookup k raw) (lookup k st))
transform_state_total_example =
    transform_state_total raw raw-IsRawState.payload raw-IsRawState.has_refs

abbrev nobody : AsyncRealtimePresence (Dict String)
nobody = record {
  state = [];
  on_join_callback = none;
  on_leave_callback = none;
  on_sync_callback = some 4;
}

nobody-IsState : IsState nobody.state
nobody-IsState = record { dict = tt; filled = tt }

on_state_event_follows_example :
    (p' : AsyncRealtimePresence (Dict String)) × (calls : List (Call (Dict String)))
    × (on_state_event nobody raw ≡ some (p', calls ++ call_sync p'.on_sync_callback))
    × IsState p'.state
    × ((k : String) (r : Option String)
        → elem r (map presence_ref (get_or k [] p'.state))
          ≡ elem r (map meta_ref (get_or k [] raw)))
on_state_event_follows_example = on_state_event_follows nobody raw nobody-IsState raw-IsRawState
