-- ===== src/World/Keeps.antt =====
-- What a call keeps, whether it returns or raises.
use realtime_py.Prelude.{if◌then◌else◌, Bool, true, false, List, [], ◌∷◌}
use realtime_py.World.Objects.{World}
use realtime_py.World.Action.{
  Outcome, returns, raises, M, ⊤, Error, pure, raise, gets, continue, ◌>>=◌, when, for_each,
}

-- If the property holds before the call, it holds after it.
pub record Keeps {ℓ} {A : Type 0} (P : World → Type ℓ) (m : M A) : Type ℓ where
  pub at : (w : World) → P w → P (m w).1

module _ {ℓ} {P : World → Type ℓ} where
  continue_keeps :
      {A B : Type 0} (f : A → M B) (r : Outcome A × World)
      → ((a : A) → Keeps P (f a))
      → P r.1
      → P (continue f r).1
  continue_keeps f (returns a, w) k h = (k a).at w h
  continue_keeps f (raises e, w) k h = h

  pub Keeps-bind :
      {A B : Type 0} {m : M A} {f : A → M B}
      → Keeps P m
      → ((a : A) → Keeps P (f a))
      → Keeps P (m >>= f)
  Keeps-bind {m} {f} km kf = record { at = λ w h. continue_keeps f (m w) kf (km.at w h) }

  pub Keeps-pure : {A : Type 0} (a : A) → Keeps P (pure a)
  Keeps-pure a = record { at = λ w h. h }

  pub Keeps-raise : {A : Type 0} (e : Error) → Keeps P (raise {A = A} e)
  Keeps-raise e = record { at = λ w h. h }

  pub Keeps-gets : {A : Type 0} (f : World → A) → Keeps P (gets f)
  Keeps-gets f = record { at = λ w h. h }

  pub Keeps-when : (b : Bool) {m : M ⊤} → Keeps P m → Keeps P (when b m)
  Keeps-when true k = k
  Keeps-when false k = record { at = λ w h. h }

  pub Keeps-if :
      {A : Type 0} (b : Bool) {m k : M A}
      → Keeps P m
      → Keeps P k
      → Keeps P (if◌then◌else◌ {A = M A} b m k)
  Keeps-if true km kk = km
  Keeps-if false km kk = kk

  -- A call that tests the store first, where its branches read the store too.
  pub Keeps-test :
      {A : Type 0} (b : World → Bool) {m k : World → M A}
      → ((w : World) → Keeps P (m w))
      → ((w : World) → Keeps P (k w))
      → Keeps P (λ w. if◌then◌else◌ (b w) (m w w) (k w w))
  Keeps-test {A} b {m} {k} km kk = record {
    at = λ w h. by_test (b w) (m w w) (k w w) ((km w).at w h) ((kk w).at w h);
  }
    where
      by_test : (b : Bool) (x y : Outcome A × World) → P x.1 → P y.1 → P (if◌then◌else◌ b x y).1
      by_test true x y hx hy = hx
      by_test false x y hx hy = hy

  pub Keeps-for_each :
      {A : Type 0} {f : A → M ⊤} (xs : List A) → ((x : A) → Keeps P (f x)) → Keeps P (for_each f xs)
  Keeps-for_each [] k = record { at = λ w h. h }
  Keeps-for_each (x ∷ xs) k = Keeps-bind (k x) (λ _. Keeps-for_each xs k)

pub ruleset keeps_rules =
    (Keeps-bind, Keeps-pure, Keeps-raise, Keeps-gets, Keeps-when, Keeps-for_each)
