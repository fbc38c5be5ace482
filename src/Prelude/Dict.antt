-- ===== src/Prelude/Dict.antt =====
-- Python's `dict` with text keys: an association list in insertion order.
use Prim.Native.String.{String}
use mathlib.Core.Path.{◌≡◌, refl, subst}
use mathlib.Core.Logic.{inl, inr}
use mathlib.Core.Bool.{Bool, true, false}
use mathlib.Core.Option.{Option, none, some}
use mathlib.Core.List.{List, [], ◌∷◌}
use native.Mathlib.Omega.{arith}
use text.Mathlib.TextEquality.{eq_iff}
use text.Mathlib.TextPositions.{eq_refl}
use realtime_py.Prelude.Tests.{str_eq, Bool-cases, if◌then◌else◌}
use realtime_py.Prelude.Lists.{All}

abbrev pub Dict {ℓ} : Type ℓ → Type ℓ
Dict V = List (String × V)

module _ {ℓ} {V : Type ℓ} where
  -- d.get(k)
  unfoldable pub lookup : String → Dict V → Option V
  lookup k [] = none
  lookup k ((j, v) ∷ d) = if str_eq j k then some v else lookup k d

  -- d.get(k, default)
  abbrev pub get_or : String → V → Dict V → V
  get_or k v d = elim (lookup k d) [ none ↦ v | some w ↦ w ]

  -- k in d
  abbrev pub contains : String → Dict V → Bool
  contains k d = elim (lookup k d) [ none ↦ false | some _ ↦ true ]

  -- d[k] = v: an old key keeps its place
  unfoldable pub insert : String → V → Dict V → Dict V
  insert k v [] = (k, v) ∷ []
  insert k v ((j, w) ∷ d) = if str_eq j k then (j, v) ∷ d else (j, w) ∷ insert k v d

  -- del d[k], for a key that is there
  unfoldable pub erase : String → Dict V → Dict V
  erase k [] = []
  erase k ((j, w) ∷ d) = if str_eq j k then d else (j, w) ∷ erase k d

  -- No key is listed twice, as in every Python dict.
  abbrev pub IsDict : Dict V → Type ℓ
  IsDict [] = Unit
  IsDict ((k, v) ∷ d) = (lookup k d ≡ none) × IsDict d

  pub lookup-insert :
      (k j : String) (v : V) (d : Dict V)
      → lookup j (insert k v d) ≡ (if str_eq k j then some v else lookup j d)
  unfolding lookup insert
  lookup-insert k j v [] = refl
  lookup-insert k j v ((i, w) ∷ d) =
      ground (arith, eq_iff k j, eq_iff i k, eq_iff i j, lookup-insert k j v d)

  pub lookup-erase :
      (k j : String) (d : Dict V)
      → IsDict d
      → lookup j (erase k d) ≡ (if str_eq k j then none else lookup j d)
  unfolding lookup erase
  lookup-erase k j [] h = ground arith
  lookup-erase k j ((i, w) ∷ d) h =
      ground (arith, eq_iff k j, eq_iff i k, eq_iff i j, lookup-erase k j d h.1)

  pub insert-IsDict : (k : String) (v : V) (d : Dict V) → IsDict d → IsDict (insert k v d)
  unfolding lookup insert
  insert-IsDict k v [] h = (refl, tt)
  insert-IsDict k v ((i, w) ∷ d) h =
      ground (arith, eq_iff k i, eq_iff i k, insert-IsDict k v d h.1, lookup-insert k i v d)

  pub erase-IsDict : (k : String) (d : Dict V) → IsDict d → IsDict (erase k d)
  unfolding lookup erase
  erase-IsDict k [] h = tt
  erase-IsDict k ((i, w) ∷ d) h =
      ground (arith, eq_iff k i, eq_iff i k, erase-IsDict k d h.1, lookup-erase k i d h.1)

  pub lookup-insert_self : (k : String) (v : V) (d : Dict V) → lookup k (insert k v d) ≡ some v
  lookup-insert_self k v d = simp (lookup-insert, eq_refl)

-- What holds of every entry that a lookup finds holds of every entry.
pub All-of_lookup {ℓ κ} :
    {V : Type ℓ} (P : String × V → Type κ) (d : Dict V)
    → IsDict d
    → ((k : String) (v : V) → lookup k d ≡ some v → P (k, v))
    → All P d
unfolding lookup
All-of_lookup P [] h all = tt
All-of_lookup P ((k, v) ∷ d) h all =
    (all k v (rw (eq_refl k)), All-of_lookup P d h.1 λ j w e. all j w (ground (arith, eq_iff k j)))

pub lookup_All {ℓ κ} :
    {V : Type ℓ} (Q : V → Type κ) (k : String) (v : V) (d : Dict V)
    → All (λ l. Q l.1) d
    → lookup k d ≡ some v
    → Q v
unfolding lookup
lookup_All Q k v [] h e = cc
lookup_All Q k v ((j, w) ∷ d) h e = elim (Bool-cases (str_eq j k)) [
  | inl same ↦ subst Q (ground arith) h.0
  | inr other ↦ lookup_All Q k v d h.1 (ground arith)
]
