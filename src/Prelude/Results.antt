-- ===== src/Prelude/Results.antt =====
-- Go's `error` results. An error keeps its message; `wrap` is `fmt.Errorf("...: %w", err)`.
use Prim.Native.Nat.{ℕ}
use Prim.Native.String.{String}
use mathlib.Core.Path.{◌≡◌, refl}
use mathlib.Core.Bool.{Bool, true, false}

pub data Error : Type 0 where
  -- os.ErrNotExist
  not_exist : Error
  -- an operating system call that failed
  failed : String → Error
  msg : String → Error
  -- a message that names an index, `"to[%d] is required"`
  at : String → ℕ → String → Error
  wrap : String → Error → Error
  wrap_at : String → ℕ → Error → Error

pub data Result {ℓ} (Value : Type ℓ) : Type ℓ where
  err : Error → Result Value
  ok : Value → Result Value

infixl 5 ◌>>=◌
infixl 5 ◌>>◌
-- A failure ends the function that meets it.
abbrev pub ◌>>=◌ {ℓ κ} : {X : Type ℓ} {Y : Type κ} → Result X → (X → Result Y) → Result Y
err problem >>= next = err problem
ok value >>= next = next value

abbrev pub ◌>>◌ {ℓ} : {Y : Type ℓ} → Result (Unit {0}) → Result Y → Result Y
first >> second = first >>= λ _. second

-- `if b { return e }`
abbrev pub reject_if : Bool → Error → Result (Unit {0})
reject_if true e = err e
reject_if false e = ok tt

-- `if err := r; err != nil { return fmt.Errorf("context: %w", err) }`
abbrev pub wrapped {ℓ} : {A : Type ℓ} → String → Result A → Result A
wrapped context (ok a) = ok a
wrapped context (err e) = err (wrap context e)

abbrev pub wrapped_at {ℓ} : {A : Type ℓ} → String → ℕ → Result A → Result A
wrapped_at context i (ok a) = ok a
wrapped_at context i (err e) = err (wrap_at context i e)

pub >>=-eq-ok {ℓ κ} :
    {X : Type ℓ} {Y : Type κ} (r : Result X) (next : X → Result Y) {y : Y}
    → (r >>= next) ≡ ok y
    → (value : X) × (r ≡ ok value) × (next value ≡ ok y)
>>=-eq-ok (err problem) next good = cc
>>=-eq-ok (ok value) next good = (value, refl, good)

pub ok_value {ℓ} : {X : Type ℓ} {x y : X} → ok x ≡ ok y → x ≡ y
ok_value good = cc

pub reject_if-eq-ok : (b : Bool) (e : Error) → reject_if b e ≡ ok tt → b ≡ false
reject_if-eq-ok true e h = cc
reject_if-eq-ok false e h = refl

abbrev pub is_ok {ℓ} : {A : Type ℓ} → Result A → Bool
is_ok (ok a) = true
is_ok (err e) = false

pub is_ok-map {ℓ κ} :
    {A : Type ℓ} {B : Type κ} (m : Result A) (f : A → B) → is_ok (m >>= λ a. ok (f a)) ≡ is_ok m
is_ok-map (ok a) f = refl
is_ok-map (err e) f = refl
