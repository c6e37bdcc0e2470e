-- ===== src/Lifecycle/Trace.antt =====
-- Code that awaits: what it does before it returns or raises, and with what it ends.
use nyra.Base.{String, List, [], ◌∷◌, ◌++◌, Result, ok, raise}
use nyra.Lifecycle.{Deed, LifecycleError, port_raised}

pub record Traced {ℓ} (A : Type ℓ) : Type ℓ where
  pub deeds : List Deed
  pub end : Result LifecycleError A

abbrev pub pure {ℓ} : {A : Type ℓ} → A → Traced A
pure a = record { deeds = []; end = ok a }

abbrev pub throw {ℓ} : {A : Type ℓ} → LifecycleError → Traced A
throw e = record { deeds = []; end = raise e }

abbrev pub emit : Deed → Traced (Unit {0})
emit deed = record { deeds = deed ∷ []; end = ok tt }

infixl 5 ◌>>=◌ ◌>>◌
abbrev pub ◌>>=◌ {ℓ κ} : {A : Type ℓ} {B : Type κ} → Traced A → (A → Traced B) → Traced B
m >>= f = elim m.end [
  | raise e ↦ record { deeds = m.deeds; end = raise e }
  | ok a ↦ record { deeds = m.deeds ++ (f a).deeds; end = (f a).end }
]

abbrev pub ◌>>◌ {κ} : {B : Type κ} → Traced (Unit {0}) → Traced B → Traced B
first >> last = first >>= λ done. last

-- A call of a port: what it returned, or the class of what it raised
abbrev pub call_port {ℓ} : {A : Type ℓ} → Result String A → Traced A
call_port (ok a) = pure a
call_port (raise error) = throw (port_raised error)
