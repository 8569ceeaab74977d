-- ===== src/Error.antt =====
-- src/error.rs: the error domain, and the outcome of a call that can return, fail or panic.
use Prim.Native.String.{◌++◌ as append}
use cryptovault.Common.{
  ◌⊎◌, inl, inr, ℕ, zero, suc, ◌/◌, ◌%◌, String, Bool, true, false, ltb, if◌then◌else◌, ◌≡◌, refl,
  sym, ap, subst, Option, none, some,
}

-- `CryptoError`: one constructor for each failing stage, with its message.
pub data CryptoError : Type 0 where
  key_derivation : String → CryptoError
  cipher : String → CryptoError
  error_correction : String → CryptoError
  encoding : String → CryptoError
  invalid_input : String → CryptoError

-- `impl Display for CryptoError`
unfoldable pub fmt : CryptoError → String
fmt (key_derivation m) = append "Key derivation error: " m
fmt (cipher m) = append "Cipher error: " m
fmt (error_correction m) = append "Error correction error: " m
fmt (encoding m) = append "Encoding error: " m
fmt (invalid_input m) = append "Invalid input: " m

-- `Result<T>` with the two outcomes that Rust's type does not show: a panic (an index out of range,
-- an underflow, an `expect` on an error) and a loop that is still running when its fuel is spent.
pub data Result {ℓ} (A : Type ℓ) : Type ℓ where
  ok : A → Result A
  err : CryptoError → Result A
  panic : Result A
  hang : Result A

infixl 5 ◌>>◌
module _ {ℓ κ} {A : Type ℓ} {B : Type κ} where
  infixl 5 ◌>>=◌
  -- `?` on a call, and the rest of the function with its value.
  abbrev pub ◌>>=◌ : Result A → (A → Result B) → Result B
  panic >>= rest = panic
  hang >>= rest = hang
  err problem >>= rest = err problem
  ok value >>= rest = rest value

  -- A chain that succeeds has succeeded at its first step.
  pub >>=-eq-ok :
      (call : Result A) (rest : A → Result B) {answer : B}
      → (call >>= rest) ≡ ok answer
      → (value : A) × (call ≡ ok value) × (rest value ≡ ok answer)
  >>=-eq-ok panic rest run = cc
  >>=-eq-ok hang rest run = cc
  >>=-eq-ok (err problem) rest run = cc
  >>=-eq-ok (ok value) rest run = (value, refl, run)

-- A check, and the rest of the function.
abbrev pub ◌>>◌ {κ} : {B : Type κ} → Result (Unit {0}) → Result B → Result B
check >> rest = check >>= λ _. rest

-- `if test { return Err(e) }`
abbrev pub reject_if : Bool → CryptoError → Result (Unit {0})
reject_if true e = err e
reject_if false e = ok tt

-- A call that returns a value or a typed error: it neither panics nor runs on.
abbrev pub Returns {ℓ} : {A : Type ℓ} → Result A → Type 0
Returns (ok a) = Unit
Returns (err e) = Unit
Returns panic = ⊥
Returns hang = ⊥

-- A number as `format!` prints it; `fuel` bounds the digits.
digit : ℕ → String
digit zero = "0"
digit (suc zero) = "1"
digit (suc (suc zero)) = "2"
digit (suc (suc (suc zero))) = "3"
digit (suc (suc (suc (suc zero)))) = "4"
digit (suc (suc (suc (suc (suc zero))))) = "5"
digit (suc (suc (suc (suc (suc (suc zero)))))) = "6"
digit (suc (suc (suc (suc (suc (suc (suc zero))))))) = "7"
digit (suc (suc (suc (suc (suc (suc (suc (suc zero)))))))) = "8"
digit (suc (suc (suc (suc (suc (suc (suc (suc (suc _))))))))) = "9"

digits : ℕ → ℕ → String
digits zero n = ""
digits (suc fuel) n =
    let front = digits fuel (n / 10) in if ltb n 10 then digit n else append front (digit (n % 10))

-- A `usize` has at most 20 decimal digits.
unfoldable pub decimal : ℕ → String
unfolding digits digit
decimal n = digits 20 n

abbrev value_or {ℓ} : {A : Type ℓ} → A → Result A → A
value_or d (ok a) = a
value_or d (err e) = d
value_or d panic = d
value_or d hang = d

pub ok-injective {ℓ} : {A : Type ℓ} {a b : A} → ok a ≡ ok b → a ≡ b
ok-injective {a} e = ap (value_or a) e

-- `Option::expect`, `Result::expect`
abbrev pub expect {ℓ} : {A : Type ℓ} → Option A → Result A
expect none = panic
expect (some a) = ok a

pub expect-eq-ok {ℓ} : {A : Type ℓ} (o : Option A) {a : A} → expect o ≡ ok a → o ≡ some a
expect-eq-ok none h = cc
expect-eq-ok (some b) h = ap some (ok-injective h)

pub Returns-eq {ℓ} : {A : Type ℓ} {r s : Result A} → r ≡ s → Returns s → Returns r
Returns-eq e h = subst (λ t. Returns t) (sym e) h

-- A chain of calls returns if its parts do.
pub Returns-bind {ℓ κ} :
    {A : Type ℓ} {B : Type κ} (r : Result A) (f : A → Result B)
    → Returns r
    → ((a : A) → r ≡ ok a → Returns (f a))
    → Returns (r >>= f)
Returns-bind (ok a) f h k = k a refl
Returns-bind (err e) f h k = tt
Returns-bind panic f h k = h
Returns-bind hang f h k = h

pub Returns-reject_if {ℓ} :
    {B : Type ℓ} (b : Bool) (e : CryptoError) (k : Result B)
    → (b ≡ false → Returns k)
    → Returns (reject_if b e >> k)
Returns-reject_if true e k h = tt
Returns-reject_if false e k h = h refl

-- A chain that succeeds has passed its first check.
pub >>-eq-ok {ℓ} :
    {A : Type ℓ} (b : Bool) (e : CryptoError) (k : Result A) {a : A}
    → (reject_if b e >> k) ≡ ok a
    → (b ≡ false) × (k ≡ ok a)
>>-eq-ok true e k h = cc
>>-eq-ok false e k h = (refl, h)

-- A call that returns has a value or an error.
pub Returns-cases {ℓ} :
    {A : Type ℓ} (r : Result A)
    → Returns r
    → ((a : A) × (r ≡ ok a)) ⊎ ((e : CryptoError) × (r ≡ err e))
Returns-cases (ok a) h = inl (a, refl)
Returns-cases (err e) h = inr (e, refl)
Returns-cases panic h = absurd h
Returns-cases hang h = absurd h
