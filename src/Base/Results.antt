-- ===== src/Base/Results.antt =====
-- What a fallible Rust function returns: `io::Result`, or a panic.
use mathlib.Core.List.{List, [], ◌∷◌}
use Prim.Native.Nat.{ℕ}
use mathlib.Core.Path.{◌≡◌, refl}
use mathlib.Core.Logic.{◌⊎◌, inl, inr}
use mathlib.Core.Bool.{Bool, true, false}

-- The errors of the code, one constructor for each way in which it makes one.
pub data Error : Type 0 where
  os outside_memory past_end no_header no_status : Error
  invalid_data unexpected_eof other_error : Error

pub data Outcome {ℓ} (A : Type ℓ) : Type ℓ where
  ok : A → Outcome A
  err : Error → Outcome A
  panic : Outcome A

-- The `?` operator: what follows runs on the value.
infixl 5 ◌>>=◌ ◌>>◌
abbrev pub ◌>>=◌ {ℓ κ} : {V : Type ℓ} {W : Type κ} → Outcome V → (V → Outcome W) → Outcome W
panic >>= next = panic
err e >>= next = err e
ok v >>= next = next v

-- And where the value is `()`.
abbrev pub ◌>>◌ {κ} : {W : Type κ} → Outcome (Unit {0}) → Outcome W → Outcome W
panic >> next = panic
err e >> next = err e
ok done >> next = next

-- `data[0]`, and `data[0] = byte`.
abbrev pub first_byte : List ℕ → Outcome ℕ
first_byte [] = panic
first_byte (b ∷ _) = ok b

abbrev pub put_first : ℕ → List ℕ → Outcome (List ℕ)
put_first v [] = panic
put_first v (_ ∷ bs) = ok (v ∷ bs)

abbrev pub is_ok {ℓ} : {A : Type ℓ} → Outcome A → Bool
is_ok (ok a) = true
is_ok (err e) = false
is_ok panic = false

-- A chain of steps that returns normally: each of its steps did.
pub >>=-eq-ok {ℓ κ} :
    {V : Type ℓ} {W : Type κ} (step : Outcome V) (next : V → Outcome W) {w : W}
    → step >>= next ≡ ok w
    → (v : V) × (step ≡ ok v) × (next v ≡ ok w)
>>=-eq-ok panic next done = cc
>>=-eq-ok (err e) next done = cc
>>=-eq-ok (ok v) next done = (v, refl, done)

pub ok-injective {ℓ} : {A : Type ℓ} {a b : A} → ok a ≡ ok b → a ≡ b
ok-injective h = cc

pub Outcome-cases {ℓ} : {A : Type ℓ} (r : Outcome A) → ((a : A) × (r ≡ ok a)) ⊎ (is_ok r ≡ false)
Outcome-cases (ok a) = inl (a, refl)
Outcome-cases (err e) = inr refl
Outcome-cases panic = inr refl
