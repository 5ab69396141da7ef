-- ===== src/Validate/Rejection.antt =====
-- The two answers by which `new_pool` of crates/lodger/src/pools.rs and `new_network` of networks.rs reject
-- a request: 409 for a name in use, 422 with the error of an input.
use lodger.Prelude.{Option, none, some, Result, ok, err}
use lodger.Validate.{Text, InputError}

pub data Rejection : Type 0 where
  exists_already : (name : Text) → Rejection
  invalid : InputError → Rejection

-- `map_err(invalid)`.
abbrev pub checked {ℓ} : {A : Type ℓ} → Result InputError A → Result Rejection A
checked (ok a) = ok a
checked (err e) = err (invalid e)

-- `ok_or_else`.
abbrev pub required {ℓ} : {A : Type ℓ} → Option A → Rejection → Result Rejection A
required (some a) e = ok a
required none e = err e
