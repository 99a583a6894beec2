-- ===== src/Common/Result.antt =====
-- Python's exceptions as values: what a function returns, or the exception that it raises.
use mathlib.Core.Path.{◌≡◌, refl}
use bifrost_platform_plugin.Common.Text.{Text}

-- The exception classes that the program tells apart, each with its message, str(e).
pub data Exception : Type 0 where
  value_error : Text → Exception
  type_error : Text → Exception
  overflow_error : Text → Exception
  runtime_error : Text → Exception
  operational_error : Text → Exception
  interface_error : Text → Exception
  integrity_error : Text → Exception
  parse_error : Text → Exception
  attribute_error : Text → Exception
  data_error : Text → Exception

abbrev pub message : Exception → Text
message (value_error m) = m
message (type_error m) = m
message (overflow_error m) = m
message (runtime_error m) = m
message (operational_error m) = m
message (interface_error m) = m
message (integrity_error m) = m
message (parse_error m) = m
message (attribute_error m) = m
message (data_error m) = m

-- `except ValueError`: what is done with the message, or with another exception.
abbrev pub on_value_error {κ} : {Y : Type κ} → Exception → (Text → Y) → Y → Y
on_value_error (value_error m) handle other = handle m
on_value_error e handle other = other

-- A property that both ways have.
pub on_value_error-both {κ κ'} :
    {Y : Type κ} (P : Y → Type κ') (e : Exception) (handle : Text → Y) (other : Y)
    → ((m : Text) → e ≡ value_error m → P (handle m))
    → P other
    → P (on_value_error e handle other)
on_value_error-both P (value_error m) handle other h k = h m refl
on_value_error-both P (type_error m) handle other h k = k
on_value_error-both P (overflow_error m) handle other h k = k
on_value_error-both P (runtime_error m) handle other h k = k
on_value_error-both P (operational_error m) handle other h k = k
on_value_error-both P (interface_error m) handle other h k = k
on_value_error-both P (integrity_error m) handle other h k = k
on_value_error-both P (parse_error m) handle other h k = k
on_value_error-both P (attribute_error m) handle other h k = k
on_value_error-both P (data_error m) handle other h k = k

-- A call that returned a value, or raised.
pub data Result {κ} (Value : Type κ) : Type κ where
  ok : Value → Result Value
  raise : Exception → Result Value

infixl 5 ◌>>=◌
-- What follows a value; an exception skips it.
abbrev pub ◌>>=◌ {κ κ'} : {X : Type κ} {Y : Type κ'} → Result X → (X → Result Y) → Result Y
raise e >>= next = raise e
ok value >>= next = next value

pub ok-injective {κ} : {X : Type κ} {x y : X} → ok x ≡ ok y → x ≡ y
ok-injective h = cc

module _ {κ κ'} {X : Type κ} {Y : Type κ'} where
  -- Where a chain returned, its first call did.
  pub >>=-eq-ok :
      {y : Y} (first : Result X) (next : X → Result Y)
      → (first >>= next) ≡ ok y
      → (x : X) × (first ≡ ok x) × (next x ≡ ok y)
  >>=-eq-ok (raise e) next returned = cc
  >>=-eq-ok (ok value) next returned = (value, refl, returned)
