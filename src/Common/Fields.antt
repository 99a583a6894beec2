-- ===== src/Common/Fields.antt =====
-- What the program reads of a dict that comes from outside: texts under a key, whatever is there.
use bifrost_platform_plugin.Common.Text.{Text, codes, strip}
use bifrost_platform_plugin.Common.Int.{pos, negsuc}
use bifrost_platform_plugin.Common.Json.{
  Json, null, bool, num, str, arr, obj, nil, cons, Dict, empty, entry, get,
}
use bifrost_platform_plugin.Common.Result.{
  Exception, attribute_error, Result, ok, raise, ok-injective,
}
use Prim.Native.Nat.{zero, suc}
use Prim.Native.String.{String}
use mathlib.Core.Bool.{true, false}
use mathlib.Core.Option.{Option, none, some}
use native.Mathlib.Omega.{arith}
use mathlib.Core.Path.{◌≡◌, subst}
use bifrost_platform_plugin.Common.Strip.{strip-strip}
use mathlib.Core.List.{[], ◌++◌}

abbrev no_strip : String → Exception
no_strip class_name =
    attribute_error (codes "'" ++ (codes class_name ++ codes "' object has no attribute 'strip'"))

abbrev stripped_value : Json → Result Text
stripped_value null = ok []
stripped_value (bool false) = ok []
stripped_value (bool true) = raise (no_strip "bool")
stripped_value (num (pos zero)) = ok []
stripped_value (num (pos (suc n))) = raise (no_strip "int")
stripped_value (num (negsuc n)) = raise (no_strip "int")
stripped_value (str s) = ok (strip s)
stripped_value (arr nil) = ok []
stripped_value (arr (cons x xs)) = raise (no_strip "list")
stripped_value (obj empty) = ok []
stripped_value (obj (entry k v d)) = raise (no_strip "dict")

abbrev stripped_option : Option Json → Result Text
stripped_option none = ok []
stripped_option (some v) = stripped_value v

-- (d.get(k) or "").strip()
unfoldable pub text_field : Dict → String → Result Text
unfolding get strip
text_field d k = stripped_option (get d k)

stripped_value-IsStripped : (v : Json) (s : Text) → stripped_value v ≡ ok s → strip s ≡ s
unfolding strip
stripped_value-IsStripped null s h = ground arith
stripped_value-IsStripped (bool false) s h = ground arith
stripped_value-IsStripped (bool true) s h = cc
stripped_value-IsStripped (num (pos zero)) s h = ground arith
stripped_value-IsStripped (num (pos (suc n))) s h = cc
stripped_value-IsStripped (num (negsuc n)) s h = cc
stripped_value-IsStripped (str t) s h = subst (λ u. strip u ≡ u) (ok-injective h) (strip-strip t)
stripped_value-IsStripped (arr nil) s h = ground arith
stripped_value-IsStripped (arr (cons x xs)) s h = cc
stripped_value-IsStripped (obj empty) s h = ground arith
stripped_value-IsStripped (obj (entry k v d)) s h = cc

stripped_option-IsStripped : (v : Option Json) (s : Text) → stripped_option v ≡ ok s → strip s ≡ s
unfolding strip
stripped_option-IsStripped none s h = ground arith
stripped_option-IsStripped (some v) s h = stripped_value-IsStripped v s h

-- What text_field returns is stripped.
pub text_field-IsStripped : (d : Dict) (k : String) (s : Text) → text_field d k ≡ ok s → strip s ≡ s
unfolding text_field
text_field-IsStripped d k s h = stripped_option-IsStripped (get d k) s h
