-- ===== src/World/Action.antt =====
-- A call of a method: it reads and writes the store, and returns or raises. What was written before
-- a raise stays written.
use realtime_py.Prelude.{ℕ, String, Bool, true, false, List, [], ◌∷◌}
use realtime_py.World.Objects.{World, Push, Channel, set_push, set_channel}

pub data Error : Type 0 where
  not_connected : String → Error
  key_error type_error : Error
  subscribed_before not_subscribed : Error
  dial_failed gave_up : Error
  assertion_error out_of_fuel dict_changed : Error

pub data Outcome {ℓ} (A : Type ℓ) : Type ℓ where
  returns : A → Outcome A
  raises : Error → Outcome A

abbrev pub ⊤ : Type 0
⊤ = Unit

abbrev pub M : Type 0 → Type 0
M A = World → Outcome A × World

abbrev pub pure : {A : Type 0} → A → M A
pure a w = (returns a, w)

abbrev pub raise : {A : Type 0} → Error → M A
raise e w = (raises e, w)

abbrev pub gets : {A : Type 0} → (World → A) → M A
gets f w = (returns (f w), w)

abbrev pub modify : (World → World) → M ⊤
modify f w = (returns tt, f w)

abbrev pub continue : {A B : Type 0} → (A → M B) → Outcome A × World → Outcome B × World
continue f (returns a, w) = f a w
continue f (raises e, w) = (raises e, w)

infixl 5 ◌>>=◌ ◌>>◌
abbrev pub ◌>>=◌ : {A B : Type 0} → M A → (A → M B) → M B
◌>>=◌ m f w = continue f (m w)

abbrev pub ◌>>◌ : {A B : Type 0} → M A → M B → M B
m >> k = m >>= λ _. k

abbrev pub skip : M ⊤
skip = pure tt

-- `if test: m`
abbrev pub when : Bool → M ⊤ → M ⊤
when true m = m
when false m = skip

-- `for x in xs: body(x)`
abbrev pub for_each : {A : Type 0} → (A → M ⊤) → List A → M ⊤
for_each f [] = skip
for_each f (x ∷ xs) = let rest = for_each f xs in f x >> rest

abbrev pub modify_channel : ℕ → (Channel → Channel) → M ⊤
modify_channel c f w = (returns tt, set_channel c (f (w.channel_at c)) w)

abbrev pub modify_push : ℕ → (Push → Push) → M ⊤
modify_push p f w = (returns tt, set_push p (f (w.push_at p)) w)
