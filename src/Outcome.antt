-- ===== src/Outcome.antt =====
-- A value or an error, for the parts of the catalog, which return errors of their own.
use gist.Prelude.{◌≡◌, refl}

pub data Outcome {i j} (Failure : Type i) (Value : Type j) : Type (i ⊔ j) where
  gave : Value → Outcome Failure Value
  failed : Failure → Outcome Failure Value

-- `if err != nil { return err }`, then the rest.
infixr 3 ◌>>=◌
abbrev pub ◌>>=◌ {i j k} :
    {Failure : Type i} {Value : Type j} {Next : Type k} (call : Outcome Failure Value)
    (rest : Value → Outcome Failure Next)
    → Outcome Failure Next
gave value >>= rest = rest value
failed why >>= rest = failed why

-- A call that gave a value, and what follows it, gave theirs one behind the other.
pub both_gave {i j k} :
    {Failure : Type i} {Value : Type j} {Next : Type k} {rest : Value → Outcome Failure Next}
    (call : Outcome Failure Value) (last : Next)
    → (call >>= rest) ≡ gave last
    → (value : Value) × (call ≡ gave value) × (rest value ≡ gave last)
both_gave (failed why) last no_value = cc
both_gave (gave value) last done = (value, refl, done)

pub gave-injective {i j} :
    {Failure : Type i} {Value : Type j} {a b : Value}
    → ◌≡◌ {A = Outcome Failure Value} (gave a) (gave b)
    → a ≡ b
gave-injective e = cc
