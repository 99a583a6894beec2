-- ===== src/Common/Json.antt =====
-- The values of JSON and YAML that the program reads, and Python's `dict` on them. Floats do not
-- occur among the values that the modelled code reads.
use Prim.Native.Nat.{ℕ, zero, suc, ◌+◌, ◌-◌, ◌*◌}
use Prim.Native.String.{String}
use mathlib.Core.Path.{◌≡◌, refl}
use mathlib.Core.Bool.{Bool, true, false}
use mathlib.Core.List.{[], ◌∷◌}
use mathlib.Core.Option.{Option, none, some}
use native.Mathlib.Omega.{arith}
use text.Mathlib.TextEquality.{eq_iff}
use bifrost_platform_plugin.Common.Tests.{◌==◌, str_eq, if◌then◌else◌}
use bifrost_platform_plugin.Common.Int.{ℤ, pos, negsuc}
use bifrost_platform_plugin.Common.Text.{Text, is_digit, strip}

mutual
  pub data Json : Type 0 where
    null : Json
    bool : Bool → Json
    num : ℤ → Json
    str : Text → Json
    arr : Items → Json
    obj : Dict → Json

  pub data Items : Type 0 where
    nil : Items
    cons : Json → Items → Items

  -- A dict in the order of insertion.
  pub data Dict : Type 0 where
    empty : Dict
    entry : String → Json → Dict → Dict

-- d.get(k)
unfoldable pub get : Dict → String → Option Json
get empty k = none
get (entry j v d) k = if str_eq j k then some v else get d k

-- d[k] = v
unfoldable pub put : Dict → String → Json → Dict
put empty k v = entry k v empty
put (entry j w d) k v = let rest = put d k v in if str_eq j k then entry j v d else entry j w rest

-- {**d, **e}
unfoldable pub merge : Dict → Dict → Dict
merge d empty = d
merge d (entry k v e) = merge (put d k v) e

unfoldable pub is_dict_key : Dict → String → Bool
is_dict_key d k = elim (get d k) [ none ↦ false | some _ ↦ true ]

pub get-put :
    (d : Dict) (k j : String) (v : Json)
    → get (put d k v) j ≡ (if str_eq k j then some v else get d j)
unfolding get put
get-put empty k j v = refl
get-put (entry i w d) k j v = ground (arith, eq_iff k j, eq_iff i k, eq_iff i j, get-put d k j v)

-- The digits of int(text): at least one, with single underscores between digits.
unfoldable pub int_digits : ℕ → Bool → Text → Option ℕ
unfolding is_digit
int_digits n after_digit [] = if after_digit then some n else none
int_digits n after_digit (c ∷ s) =
    let more = int_digits (n * 10 + (c - 48)) true s in
    let gap = int_digits n false s in
    if is_digit c then more else if c == b'_' then (if after_digit then gap else none) else none

signed : (ℕ → ℤ) → Option ℕ → Option ℤ
signed f none = none
signed f (some n) = some (f n)

abbrev negated : ℕ → ℤ
negated zero = pos zero
negated (suc n) = negsuc n

int_signed : Text → Option ℤ
unfolding signed
int_signed [] = none
int_signed (c ∷ s) =
    if c == b'-'
    then signed negated (int_digits 0 false s)
    else if c == b'+'
    then signed pos (int_digits 0 false s)
    else signed pos (int_digits 0 false (c ∷ s))

-- int(text); `none` is a ValueError.
unfoldable pub int_of_text : Text → Option ℤ
unfolding int_signed int_digits strip
int_of_text s = int_signed (strip s)

-- int(v); `none` is a TypeError or a ValueError.
unfoldable pub int_of : Json → Option ℤ
unfolding int_of_text
int_of null = none
int_of (bool true) = some (pos 1)
int_of (bool false) = some (pos 0)
int_of (num n) = some n
int_of (str s) = int_of_text s
int_of (arr xs) = none
int_of (obj d) = none

-- `v is None or str(v).strip() == ""`: only a blank text prints blank.
unfoldable pub is_blank : Json → Bool
unfolding strip
is_blank null = true
is_blank (str s) = elim (strip s) [ [] ↦ true | _ ∷ _ ↦ false ]
is_blank v = false
