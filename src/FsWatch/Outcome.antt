-- ===== src/FsWatch/Outcome.antt =====
-- How a step of the watcher ends: it returns, the process exits by its own call, or it reads
-- through a null pointer or through the end iterator of a map, which C++ does not define.
use ch_cpp_utils.Base.{◌≡◌, refl}

pub data Outcome {ℓ} (A : Type ℓ) : Type ℓ where
  done : A → Outcome A
  exited fault : Outcome A

infixl 10 ◌>>=◌
abbrev pub ◌>>=◌ {ℓ κ} : {A : Type ℓ} {B : Type κ} → Outcome A → (A → Outcome B) → Outcome B
done a >>= next = next a
exited >>= next = exited
fault >>= next = fault

-- A step that returned had a first part that returned.
pub >>=-eq-done {ℓ κ} :
    {A : Type ℓ} {B : Type κ} (m : Outcome A) (next : A → Outcome B) {b : B}
    → (m >>= next) ≡ done b
    → (a : A) × (m ≡ done a) × (next a ≡ done b)
>>=-eq-done (done a) next h = (a, refl, h)
>>=-eq-done exited next h = cc
>>=-eq-done fault next h = cc

-- What a step establishes if it returns.
abbrev pub Ensures {ℓ κ} : {A : Type ℓ} → (A → Type κ) → Outcome A → Type κ
Ensures P (done a) = P a
Ensures P exited = Unit
Ensures P fault = Unit

pub Ensures-bind {ℓ κ ℓ' κ'} :
    {A : Type ℓ} {B : Type ℓ'} (P : A → Type κ) (Q : B → Type κ') (m : Outcome A)
    (next : A → Outcome B)
    → Ensures P m
    → ((a : A) → P a → Ensures Q (next a))
    → Ensures Q (m >>= next)
Ensures-bind P Q (done a) next h k = k a h
Ensures-bind P Q exited next h k = tt
Ensures-bind P Q fault next h k = tt

pub Ensures-any {ℓ} : {A : Type ℓ} (m : Outcome A) → Ensures (λ _. Unit {0}) m
Ensures-any (done a) = tt
Ensures-any exited = tt
Ensures-any fault = tt
