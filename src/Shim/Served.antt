-- ===== src/Shim/Served.antt =====
-- What the ingesters may do to the rest of the shim: write below the models that the gNMI server
-- advertises, and emit events only where `main` gives them the correlator.
use for_visibility.Prelude.{
  ◌≡◌, refl, Bool, true, false, ◌||◌, List, [], ◌∷◌, ◌++◌, All, All-append, Run, returns, panics,
  ◌>>=◌, if◌then◌else◌,
}
use for_visibility.Text.{Bytes, text, bytes_beq}
use for_visibility.Gnmi.{PathElem, GnmiPath, Update, Effect, cache_update, emit}
use for_visibility.Server.Capabilities.{ModelData, capabilities}
use for_visibility.Shim.{Part, correlated}

abbrev pub has_model : Bytes → List ModelData → Bool
has_model name [] = false
has_model name (m ∷ models) = bytes_beq m.name name || has_model name models

-- The OpenConfig model that has the container at the top of a path.
abbrev pub root_model : List PathElem → Bytes
root_model [] = []
root_model (e ∷ elems) =
    if bytes_beq e.name (text "interfaces")
    then text "openconfig-interfaces"
    else if bytes_beq e.name (text "network-instances")
    then text "openconfig-network-instance"
    else if bytes_beq e.name (text "lldp")
    then text "openconfig-lldp"
    else []

-- The model to which a path of an origin belongs: a private origin is a model of its own.
abbrev pub model_of : Bytes → List PathElem → Bytes
model_of origin elems = if bytes_beq origin (text "openconfig") then root_model elems else origin

unfoldable pub is_advertised : Bytes → List PathElem → Bool
unfolding capabilities
is_advertised origin elems = has_model (model_of origin elems) capabilities.supported_models

-- The cache updates are in advertised models, and an event comes from a part that has the correlator.
abbrev pub IsServed : Part → Effect → Type 0
IsServed part (cache_update origin ups dels) =
    All (λ (u : Update). is_advertised origin u.path.elem ≡ true) ups
    × All (λ (p : GnmiPath). is_advertised origin p.elem ≡ true) dels
IsServed part (emit bus kind key detail root) = correlated part ≡ true

abbrev pub AllServed : Part → List Effect → Type 0
AllServed part effects = All (IsServed part) effects

abbrev pub Held {ℓ} : {A : Type ℓ} → (A → Type 0) → Run A → Type 0
Held P (returns a) = P a
Held P panics = Unit

-- What the code returns has the property, if it does not panic.
pub record RunHolds {ℓ} {A : Type ℓ} (P : A → Type 0) (run : Run A) : Type 0 where
  pub holds : Held P run

-- the effects that come with a state
abbrev pub WithServed {ℓ} : {A : Type ℓ} → Part → A × List Effect → Type 0
WithServed part (a, effects) = AllServed part effects

abbrev pub RunServed {ℓ} : {A : Type ℓ} → Part → Run (A × List Effect) → Type 0
RunServed part run = RunHolds (WithServed part) run

module _ (rest : List PathElem) (e : PathElem) where
  pub interfaces_advertised :
      e.name ≡ text "interfaces" → is_advertised (text "openconfig") (e ∷ rest) ≡ true
  unfolding is_advertised text bytes_beq capabilities
  interfaces_advertised named = rw (named) refl

  pub instances_advertised :
      e.name ≡ text "network-instances" → is_advertised (text "openconfig") (e ∷ rest) ≡ true
  unfolding is_advertised text bytes_beq capabilities
  instances_advertised named = rw (named) refl

  pub lldp_advertised : e.name ≡ text "lldp" → is_advertised (text "openconfig") (e ∷ rest) ≡ true
  unfolding is_advertised text bytes_beq capabilities
  lldp_advertised named = rw (named) refl

pub frr_advertised : (elems : List PathElem) → is_advertised (text "frr") elems ≡ true
unfolding is_advertised text bytes_beq capabilities
frr_advertised elems = refl

pub host_advertised : (elems : List PathElem) → is_advertised (text "host") elems ≡ true
unfolding is_advertised text bytes_beq capabilities
host_advertised elems = refl

module _ {ℓ} {A : Type ℓ} (P : A → Type 0) where
  pub if-RunHolds :
      (c : Bool) (x y : Run A) → RunHolds P x → RunHolds P y → RunHolds P (if c then x else y)
  if-RunHolds true x y hx hy = hx
  if-RunHolds false x y hx hy = hy

  pub returns-RunHolds : (a : A) → P a → RunHolds P (returns a)
  returns-RunHolds a h = record { holds = h }

  pub bind-RunHolds {κ} :
      {B : Type κ} (Q : B → Type 0) (m : Run B) (g : B → Run A)
      → RunHolds Q m
      → ((b : B) → Q b → RunHolds P (g b))
      → RunHolds P (m >>= g)
  bind-RunHolds Q (returns b) g hm hg = hg b hm.holds
  bind-RunHolds Q panics g hm hg = record { holds = tt }

-- one message after another
pub then-RunServed {ℓ κ} :
    {A : Type ℓ} {B : Type κ} (part : Part) (m : Run (B × List Effect))
    (g : B → Run (A × List Effect))
    → RunServed part m
    → ((b : B) → RunServed part (g b))
    → RunServed part (m >>= λ (b, effects). g b >>= λ (a, more). returns (a, effects ++ more))
then-RunServed part m g hm hg =
    bind-RunHolds (WithServed part) (WithServed part) m _ hm λ (b, effects) hb.
      bind-RunHolds (WithServed part) (WithServed part) (g b) _ (hg b) λ (a, more) ha.
        returns-RunHolds (WithServed part) (a, effects ++ more)
          (All-append (IsServed part) effects more hb ha)

abbrev pub Anything {ℓ} : {A : Type ℓ} → A → Type 0
Anything a = Unit

pub returns_or_panics {ℓ} : {A : Type ℓ} (m : Run A) → RunHolds Anything m
returns_or_panics (returns a) = record { holds = tt }
returns_or_panics panics = record { holds = tt }
