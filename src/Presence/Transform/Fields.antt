-- ===== src/Presence/Transform/Fields.antt =====
-- What `_transform_state` makes of each meta, and when it raises.
use realtime_py.Prelude.{
  String, ◌≡◌, refl, ◌||◌, Option, none, some, [], ◌∷◌, arith, eq_iff, str_eq, if◌then◌else◌,
}
use realtime_py.Prelude.Dict.{
  Dict, lookup, insert, erase, IsDict, lookup-insert, lookup-erase, erase-IsDict,
}
use realtime_py.Presence.Transform.{update, drop_prev, transform_meta}

module _ {V : Type 0} where
  abbrev pub override : Option V → Option V → Option V
  override none old = old
  override (some v) old = some v

  lookup-update :
      (d items : Dict V) (k : String)
      → IsDict items
      → lookup k (update d items) ≡ override (lookup k items) (lookup k d)
  unfolding update lookup
  lookup-update d [] k h = refl
  lookup-update d ((j, v) ∷ items) k h =
      ground (arith, eq_iff j k, lookup-update (insert j v d) items k h.1, lookup-insert j k v d)

  drop_prev-IsDict : (meta : Dict V) → IsDict meta → IsDict (drop_prev meta)
  unfolding drop_prev
  drop_prev-IsDict meta h = ground (arith, erase-IsDict "phx_ref_prev" meta h)

  lookup-drop_prev :
      (meta : Dict V) (k : String)
      → IsDict meta
      → lookup k (drop_prev meta) ≡ (if str_eq "phx_ref_prev" k then none else lookup k meta)
  unfolding drop_prev
  lookup-drop_prev meta k h =
      ground (arith, eq_iff "phx_ref_prev" k, lookup-erase "phx_ref_prev" k meta h)

  -- The presence of a meta: its own fields but the two of Phoenix, and the reference under the
  -- name `presence_ref`, unless the meta has a field of that name.
  abbrev pub field : Dict V → V → String → Option V
  field meta phx_ref k =
      if str_eq "phx_ref" k || str_eq "phx_ref_prev" k
      then none
      else override (lookup k meta) (if str_eq "presence_ref" k then some phx_ref else none)

  lookup_single :
      (k : String) (v : V)
      → lookup k (("presence_ref", v) ∷ []) ≡ (if str_eq "presence_ref" k then some v else none)
  unfolding lookup
  lookup_single k v = refl

  -- A meta that is a dict with a `phx_ref` becomes a presence whose every field is as `field` says.
  pub transform_meta_fields :
      (meta : Dict V) (phx_ref : V)
      → IsDict meta
      → lookup "phx_ref" meta ≡ some phx_ref
      → (presence : Dict V) × (transform_meta meta ≡ some presence)
        × ((k : String) → lookup k presence ≡ field meta phx_ref k)
  unfolding transform_meta
  transform_meta_fields meta phx_ref h r = (
    update (("presence_ref", phx_ref) ∷ []) (erase "phx_ref" (drop_prev meta)),
    rw (lookup-drop_prev meta "phx_ref" h, r),
    λ k.
        let rest = drop_prev-IsDict meta h in
        ground (
          arith,
          eq_iff "phx_ref" k,
          eq_iff "phx_ref_prev" k,
          eq_iff "presence_ref" k,
          eq_iff "phx_ref" "presence_ref",
          eq_iff "phx_ref_prev" "presence_ref",
          lookup-update (("presence_ref", phx_ref) ∷ []) (erase "phx_ref" (drop_prev meta)) k
              (erase-IsDict "phx_ref" (drop_prev meta) rest),
          lookup-erase "phx_ref" k (drop_prev meta) rest,
          lookup-drop_prev meta k h,
          lookup_single k phx_ref,
        ),
  )

  -- A meta without a `phx_ref` raises.
  pub transform_meta_raises :
      (meta : Dict V) → IsDict meta → lookup "phx_ref" meta ≡ none → transform_meta meta ≡ none
  unfolding transform_meta
  transform_meta_raises meta h r = rw (lookup-drop_prev meta "phx_ref" h, r)
