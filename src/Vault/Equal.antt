-- ===== src/Vault/Equal.antt =====
-- `constant_time_eq` of src/vault.rs, without its timing. The `subtle` crate is the parameter
-- `Subtle`.
use cryptovault.Common.{ℕ, List, Bool}

pub record Subtle : Type 1 where
  pub Choice : Type 0
  -- `<[u8] as ConstantTimeEq>::ct_eq`
  pub ct_eq : List ℕ → List ℕ → Choice
  -- `bool::from`
  pub to_bool : Choice → Bool

unfoldable pub constant_time_eq : Subtle → List ℕ → List ℕ → Bool
constant_time_eq subtle a b = subtle.to_bool (subtle.ct_eq a b)
