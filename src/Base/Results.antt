-- ===== src/Base/Results.antt =====
-- Results of kernel code: a value, or the message with which `panic` (console.c) stops the machine.
use mathlib.Core.Bool.{Bool, true, false}
use Prim.Native.String.{String}

pub data Result {ℓ} (A : Type ℓ) : Type ℓ where
  ok : A → Result A
  panic : String → Result A

infixl 5 ◌>>=◌ ◌>>◌
abbrev pub ◌>>=◌ {ℓ κ} : {A : Type ℓ} {B : Type κ} → Result A → (A → Result B) → Result B
ok a >>= f = f a
panic s >>= f = panic s

abbrev pub ◌>>◌ {ℓ} : {B : Type ℓ} → Result (Unit {0}) → Result B → Result B
m >> k = m >>= λ _. k

-- `if(!b) panic(s);`
abbrev pub assert : Bool → String → Result (Unit {0})
assert true s = ok tt
assert false s = panic s
