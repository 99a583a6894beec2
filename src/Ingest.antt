-- ===== src/Ingest.antt =====
-- orchestration/trades.py, transactions.py and utils.py, and worker/handlers.py: a run of a job kind, from the
-- request to the rows written, and what the job makes of its result.
pub mod Fallback
pub mod Span
pub mod Trades
pub mod Cash
pub mod Handlers
mod Tests
use bifrost_platform_plugin.Common.{
  ℕ, zero, suc, Bool, true, false, ◌||◌, not, any, Option, none, some, List, [], ◌∷◌, ◌++◌, map,
  if◌then◌else◌, String,
}
use bifrost_platform_plugin.Common.Text.{Text, codes, strip, text_eq, lower, contains}
use bifrost_platform_plugin.Common.Int.{ℤ, pos}
use bifrost_platform_plugin.Common.Json.{
  Json, null, bool, num, str, arr, obj, Items, nil, cons, Dict, empty, entry, get,
}
use bifrost_platform_plugin.Common.Result.{
  Exception, value_error, message, Result, ok, raise, ◌>>=◌,
}
use bifrost_platform_plugin.Worker.{truthy}

-- The dates of a request, empty if they are not given, and its period.
pub record Ask : Type 0 where
  pub from_date : Text
  pub to_date : Text
  pub period : Option ℕ

abbrev off_words : List String
off_words = "" ∷ "0" ∷ "false" ∷ "no" ∷ "off" ∷ []

-- `_truthy`
unfoldable pub is_on : Json → Bool
unfolding truthy strip text_eq
is_on (str s) = not (any (λ w. text_eq (codes w) (map lower (strip s))) off_words)
is_on v = truthy v

-- payload.get("fallback", True)
abbrev on_by_default : Option Json → Bool
on_by_default none = true
on_by_default (some v) = is_on v

abbrev pub allows_fallback : Dict → Bool
allows_fallback payload = on_by_default (get payload "fallback")

-- `_is_flex_statement_unavailable`
unfoldable pub is_unavailable : Exception → Bool
unfolding contains
is_unavailable e =
    contains (codes "[1003]") (message e)
    || contains (codes "Statement is not available") (message e)

abbrev pub texts : List Text → Items
texts [] = nil
texts (s ∷ ss) = cons (str s) (texts ss)

abbrev pub text_or_null : Option Text → Json
text_or_null none = null
text_or_null (some s) = str s

abbrev pub given_or_null : Text → Json
given_or_null [] = null
given_or_null (c ∷ s) = str (c ∷ s)

-- sep.join(texts)
unfoldable pub join : Text → List Text → Text
join sep [] = []
join sep (s ∷ []) = s
join sep (s ∷ t ∷ ts) = s ++ (sep ++ join sep (t ∷ ts))

-- {"ok": False, "error": error, "count": 0}
abbrev pub failed : Text → Dict
failed error =
    entry "ok" (bool false) (entry "error" (str error) (entry "count" (num (pos 0)) empty))
