-- ===== src/Presence.antt =====
-- realtime/_async/presence.py: the presence state of a channel, and its three merges. A presence
-- is a dict of JSON values; the merges read only its reference, which is a parameter `ref` here
-- (`Presence/Transform.antt` instantiates it). User callbacks are numbers, and a call of one is an
-- entry of the list of calls that an operation returns. They do not write the state back.
pub mod Refs
pub mod Joins
pub mod Leaves
pub mod Diff
pub mod Synced
pub mod Follows
pub mod Break
pub mod Transform
use realtime_py.Prelude.{
  ℕ, String, Bool, true, false, not, Option, none, some, List, [], ◌∷◌, ◌++◌, map, is_empty, keep,
  elem, Eq, if◌then◌else◌,
}
use realtime_py.Prelude.Dict.{Dict, lookup, get_or, contains, insert, erase}

pub record AsyncRealtimePresence (P : Type 0) : Type 0 where
  pub state : Dict (List P)
  pub on_join_callback : Option ℕ
  pub on_leave_callback : Option ℕ
  pub on_sync_callback : Option ℕ

-- A call of a user callback, with its arguments.
pub data Call (P : Type 0) : Type 0 where
  joined left : ℕ → String → List P → List P → Call P
  synced : ℕ → Call P

module _ {P : Type 0} where
  -- `__init__`
  unfoldable pub init : AsyncRealtimePresence P
  init = record {
    state = [];
    on_join_callback = none;
    on_leave_callback = none;
    on_sync_callback = none;
  }

  unfoldable pub on_join : ℕ → AsyncRealtimePresence P → AsyncRealtimePresence P
  on_join callback p = record p { on_join_callback = some callback }

  unfoldable pub on_leave : ℕ → AsyncRealtimePresence P → AsyncRealtimePresence P
  on_leave callback p = record p { on_leave_callback = some callback }

  unfoldable pub on_sync : ℕ → AsyncRealtimePresence P → AsyncRealtimePresence P
  on_sync callback p = record p { on_sync_callback = some callback }

  -- `if self.on_join_callback: self.on_join_callback(...)`, and likewise below
  abbrev pub call_join : Option ℕ → String → List P → List P → List (Call P)
  call_join none key current new = []
  call_join (some f) key current new = joined f key current new ∷ []

  abbrev pub call_leave : Option ℕ → String → List P → List P → List (Call P)
  call_leave none key current gone = []
  call_leave (some f) key current gone = left f key current gone ∷ []

  abbrev pub call_sync : Option ℕ → List (Call P)
  call_sync none = []
  call_sync (some f) = synced f ∷ []

  -- `if xs: d[key] = xs`
  unfoldable pub insert_some : String → List P → Dict (List P) → Dict (List P)
  insert_some key xs d = if is_empty xs then d else insert key xs d

  -- `{k: v for k, v in self.state.items() if k not in new_state}`
  unfoldable pub missing : Dict (List P) → Dict (List P) → Dict (List P)
  missing new_state [] = []
  missing new_state ((k, v) ∷ items) =
      if contains k new_state then missing new_state items else (k, v) ∷ missing new_state items

module _ {P R : Type 0} ⦃e : Eq R⦄ (ref : P → R) where
  -- `{presence["presence_ref"] for presence in ps}`, read only through `in`
  abbrev pub refs : List P → List R
  refs = map ref

  -- `[p for p in ps if p["presence_ref"] not in rs]`
  unfoldable pub without : List R → List P → List P
  without rs ps = keep (λ p. not (elem (ref p) rs)) ps

  -- The state that one round of the first loop of `_sync_diff` leaves.
  unfoldable pub join_key : Dict (List P) → String → List P → Dict (List P)
  join_key state key new =
      let current = get_or key [] state in
      let state1 = insert key new state in
      if is_empty current
      then state1
      else insert key (without (refs new) current ++ get_or key [] state1) state1

  unfoldable pub join_all :
      Option ℕ → Dict (List P) → Dict (List P) → List (Call P) → Dict (List P) × List (Call P)
  join_all f [] state calls = (state, calls)
  join_all f ((key, new) ∷ joins) state calls =
      join_all f joins (join_key state key new) (calls ++ call_join f key (get_or key [] state) new)

  -- One round of the second loop, for a key with presences.
  unfoldable pub leave_key : Dict (List P) → String → List P → Dict (List P)
  leave_key state key gone =
      let current = without (refs gone) (get_or key [] state) in
      let state1 = insert key current state in if is_empty current then erase key state1 else state1

  -- The `break` ends the loop at the first key that has no presences.
  unfoldable pub leave_all :
      Option ℕ → Dict (List P) → Dict (List P) → List (Call P) → Dict (List P) × List (Call P)
  leave_all f [] state calls = (state, calls)
  leave_all f ((key, gone) ∷ leaves) state calls = elim (is_empty (get_or key [] state)) [
    | true ↦ (state, calls)
    | false ↦
        leave_all f leaves (leave_key state key gone)
          (calls ++ call_leave f key (without (refs gone) (get_or key [] state)) gone)
  ]

  -- `_sync_diff`: the object with its new state, and the calls made.
  unfoldable pub sync_diff :
      AsyncRealtimePresence P
      → Dict (List P)
      → Dict (List P)
      → AsyncRealtimePresence P × List (Call P)
  sync_diff p joins leaves =
      let (state1, calls1) = join_all p.on_join_callback joins p.state [] in
      let (state2, calls2) = leave_all p.on_leave_callback leaves state1 calls1 in
      (record p { state = state2 }, calls2)

  -- One round of the loop of `_sync_state`.
  unfoldable pub diff_key :
      Dict (List P)
      → String
      → List P
      → Dict (List P) × Dict (List P)
      → Dict (List P) × Dict (List P)
  unfolding insert_some without
  diff_key state key value (joins, leaves) =
      let current = get_or key [] state in
      if is_empty current then (insert key value joins, leaves) else (
        insert_some key (without (refs current) value) joins,
        insert_some key (without (refs value) current) leaves,
      )

  unfoldable pub diff_all :
      Dict (List P) → Dict (List P) → Dict (List P) × Dict (List P) → Dict (List P) × Dict (List P)
  diff_all state [] acc = acc
  diff_all state ((key, value) ∷ items) acc = diff_all state items (diff_key state key value acc)

  -- `_sync_state`
  unfoldable pub sync_state :
      AsyncRealtimePresence P → Dict (List P) → AsyncRealtimePresence P × List (Call P)
  sync_state p new_state =
      let (joins, leaves) = diff_all p.state new_state ([], missing new_state p.state) in
      sync_diff p joins leaves
