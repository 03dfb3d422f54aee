-- ===== src/Base/Chain.antt =====
-- Chains of reads and writes that may leave their buffer: `none` is such a fault, which C leaves
-- undefined.
use mathlib.Core.Option.{Option, none, some}
use mathlib.Core.Path.{◌≡◌, refl}

infixl 5 ◌>>=◌
abbrev pub ◌>>=◌ {ℓ κ} : {A : Type ℓ} {B : Type κ} → Option A → (A → Option B) → Option B
none >>= k = none
some a >>= k = k a

-- Chains may be bracketed either way.
pub chain_assoc {ℓ} :
    {A B C : Type ℓ} (o : Option A) (f : A → Option B) (g : B → Option C)
    → (o >>= f >>= g) ≡ (o >>= λ a. f a >>= g)
chain_assoc none f g = refl
chain_assoc (some a) f g = refl
