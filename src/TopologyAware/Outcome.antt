-- ===== src/TopologyAware/Outcome.antt =====
-- Results of the functions: a value, an `error`, or a run-time panic.
use cloud_native.Prelude.{Bool, true, false, ◌≡◌, refl, if◌then◌else◌}

pub data Error : Type 0 where
  memory_exceeded : Error
  cpu_exceeded : Error
  no_pool : Error
  no_grant : Error
  missing_info : Error
  no_pod : Error
  bad_topology : Error
  empty_id : Error
  unknown_message : Error
  no_container : Error
  runtime_error : Error

-- A nil dereference ends the program, which is `panic`.
pub data Outcome {ℓ} (A : Type ℓ) : Type ℓ where
  panic : Outcome A
  err : Error → Outcome A
  ok : A → Outcome A

infixl 5 ◌>>=◌
-- The early return on an error or a panic.
abbrev pub ◌>>=◌ {ℓ κ} : {A : Type ℓ} {B : Type κ} → Outcome A → (A → Outcome B) → Outcome B
panic >>= next = panic
err reason >>= next = err reason
ok value >>= next = next value

abbrev pub is_ok {ℓ} : {A : Type ℓ} → Outcome A → Bool
is_ok (ok a) = true
is_ok (err e) = false
is_ok panic = false

-- Both parts of a sequence that succeeds have succeeded.
pub >>=-eq-ok {ℓ κ} :
    {X : Type ℓ} {Y : Type κ} (first : Outcome X) (next : X → Outcome Y) {y : Y}
    → (first >>= next) ≡ ok y
    → (x : X) × (first ≡ ok x) × (next x ≡ ok y)
>>=-eq-ok panic next success = cc
>>=-eq-ok (err reason) next success = cc
>>=-eq-ok (ok x) next success = (x, refl, success)

-- An error that a test guards did not happen where the call succeeds.
pub unless_err {ℓ} :
    {X : Type ℓ} (b : Bool) (e : Error) (o : Outcome X) {x : X}
    → (if b then err e else o) ≡ ok x
    → o ≡ ok x
unless_err true e o h = cc
unless_err false e o h = h
