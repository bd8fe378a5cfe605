-- ===== src/Kv/Outcome.antt =====
-- What a run of the C++ code can come to, and the monad of code that may stop.
use cis505_penn_cloud.Prelude.{◌≡◌, refl}

pub data Outcome {ℓ} (A : Type ℓ) : Type ℓ where
  ok : A → Outcome A
  -- A null pointer is dereferenced, or an exception is not caught.
  fault : Outcome A
  -- The fuel of a loop has run out.
  timeout : Outcome A

infixl 5 ◌>>=◌
abbrev pub ◌>>=◌ {ℓ κ} : {A : Type ℓ} {B : Type κ} → Outcome A → (A → Outcome B) → Outcome B
ok a >>= f = f a
fault >>= f = fault
timeout >>= f = timeout

-- A run that ends well: its first part has ended well.
pub >>=-eq-ok {ℓ κ} :
    {A : Type ℓ} {B : Type κ} {end : B} (first : Outcome A) (then_ : A → Outcome B)
    → (first >>= then_) ≡ ok end
    → (mid : A) × (first ≡ ok mid) × (then_ mid ≡ ok end)
>>=-eq-ok fault then_ e = cc
>>=-eq-ok timeout then_ e = cc
>>=-eq-ok (ok mid) then_ e = (mid, refl, e)

-- Equal ways to go on.
pub >>=-ext {ℓ κ} :
    {A : Type ℓ} {B : Type κ} (m : Outcome A) (f g : A → Outcome B)
    → ((a : A) → f a ≡ g a)
    → (m >>= f) ≡ (m >>= g)
>>=-ext fault f g same_ = refl
>>=-ext timeout f g same_ = refl
>>=-ext (ok a) f g same_ = same_ a

pub >>=_assoc {ℓ κ ι} :
    {A : Type ℓ} {B : Type κ} {C : Type ι} (m : Outcome A) (f : A → Outcome B) (g : B → Outcome C)
    → ((m >>= f) >>= g) ≡ (m >>= λ a. f a >>= g)
>>=_assoc (ok a) f g = refl
>>=_assoc fault f g = refl
>>=_assoc timeout f g = refl
