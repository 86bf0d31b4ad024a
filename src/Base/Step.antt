-- ===== src/Base/Step.antt =====
-- Checks in a row, each of which may end the function: an early return is a `stop`.
use mathlib.Core.Path.{◌≡◌, refl}
use mathlib.Core.Bool.{Bool, true, false}
use mathlib.Core.Option.{Option, none, some}

pub data Step (E A : Type 0) : Type 0 where
  go : A → Step E A
  stop : E → Step E A

infixl 5 ◌>>=◌ ◌>>◌
abbrev pub ◌>>=◌ : {E A B : Type 0} → Step E A → (A → Step E B) → Step E B
go a >>= f = f a
stop x >>= f = stop x

abbrev pub ◌>>◌ : {E B : Type 0} → Step E (Unit {0}) → Step E B → Step E B
m >> k = m >>= λ _. k

-- `if (!b) return x;`
abbrev pub guard : {E : Type 0} → Bool → E → Step E (Unit {0})
guard true x = go tt
guard false x = stop x

abbrev pub present : {E A : Type 0} → Option A → E → Step E A
present none x = stop x
present (some a) x = go a

abbrev pub on_stop : {E F A : Type 0} → (E → F) → Step E A → Step F A
on_stop f (go a) = go a
on_stop f (stop x) = stop (f x)

-- A passed check and the rest of the row, from the result of the whole row.
pub >>=-eq-go :
    {E A B : Type 0} (m : Step E A) (f : A → Step E B) {b : B}
    → (m >>= f) ≡ go b
    → (a : A) × (m ≡ go a) × (f a ≡ go b)
>>=-eq-go (go a) f h = (a, refl, h)
>>=-eq-go (stop x) f h = cc

pub guard-eq-go : {E : Type 0} (b : Bool) (x : E) {u : Unit {0}} → guard b x ≡ go u → b ≡ true
guard-eq-go true x h = refl
guard-eq-go false x h = cc

pub present-eq-go : {E A : Type 0} (o : Option A) (x : E) {a : A} → present o x ≡ go a → o ≡ some a
present-eq-go none x h = cc
present-eq-go (some a) x h = cc

pub on_stop-eq-go :
    {E F A : Type 0} (f : E → F) (m : Step E A) {a : A} → on_stop f m ≡ go a → m ≡ go a
on_stop-eq-go f (go a) h = cc
on_stop-eq-go f (stop x) h = cc

pub go-injective : {E A : Type 0} {a b : A} → ◌≡◌ {A = Step E A} (go a) (go b) → a ≡ b
go-injective h = cc

pub some-injective : {A : Type 0} {a b : A} → ◌≡◌ {A = Option A} (some a) (some b) → a ≡ b
some-injective h = cc

-- The last part of a row that passed.
pub >>-eq-go :
    {E B : Type 0} (m : Step E (Unit {0})) (k : Step E B) {b : B} → (m >> k) ≡ go b → k ≡ go b
>>-eq-go (go u) k h = h
>>-eq-go (stop x) k h = cc
