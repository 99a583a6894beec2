-- ===== src/Ingest/Trades/Texts.antt =====
-- orchestration/trades.py: the sentences of the message of a trades run, and the values of its result.
use bifrost_platform_plugin.Common.{
  ℕ, zero, suc, Bool, true, false, any, Option, none, some, List, [], ◌∷◌, ◌++◌, if◌then◌else◌,
  String,
}
use bifrost_platform_plugin.Common.Text.{Text, codes, strip, text_eq}
use bifrost_platform_plugin.Common.Int.{ℤ, pos}
use bifrost_platform_plugin.Common.Json.{
  Json, null, bool, num, str, obj, Items, nil, cons, Dict, empty, entry,
}
use bifrost_platform_plugin.Config.{Entry}
use bifrost_platform_plugin.Flex.Rows.{Row, Value, words, get_field}
use bifrost_platform_plugin.Ingest.{text_or_null, join}
use bifrost_platform_plugin.Ingest.Trades.{PerQuery}

abbrev pub dict : List (String × Json) → Dict
dict [] = empty
dict ((k, v) ∷ fields) = entry k v (dict fields)

abbrev pub days_or_null : Option ℕ → Json
days_or_null none = null
days_or_null (some n) = num (pos n)

abbrev pub counts : List ℤ → Items
counts [] = nil
counts (n ∷ ns) = cons (num n) (counts ns)

abbrev query_dict : PerQuery → Json
query_dict q = obj (
    dict (
      ("role", str q.entry.role)
      ∷ ("query_id", str q.entry.query_id)
      ∷ ("label", text_or_null q.entry.query_label)
      ∷ ("rows", num (pos q.rows))
      ∷ ("data_from", text_or_null q.data_from)
      ∷ ("data_to", text_or_null q.data_to)
      ∷ ("used_fallback", bool q.used_fallback)
      ∷ ("fallback_kind", text_or_null q.fallback_kind)
      ∷ []))

abbrev pub query_dicts : List PerQuery → Items
query_dicts [] = nil
query_dicts (q ∷ qs) = cons (query_dict q) (query_dicts qs)

-- The accounts of the rows, each once.
abbrev pub account_text : {F : Type 0} → Value F → Text
account_text (words s) = strip s
account_text v = []

abbrev add_account : List Text → Text → List Text
add_account seen [] = seen
add_account seen (c ∷ s) = if any (text_eq (c ∷ s)) seen then seen else (c ∷ s) ∷ seen

unfoldable pub accounts_of : {F : Type 0} → List Text → List (Row F) → List Text
unfolding get_field strip text_eq
accounts_of seen [] = seen
accounts_of seen (r ∷ rows) =
    accounts_of (add_account seen (account_text (get_field r "account_id"))) rows

abbrev pub span_sentence : Option Text → Option Text → Text
span_sentence (some from) (some to) =
    codes " Flex data time span: " ++ (from ++ (codes " .. " ++ (to ++ codes ".")))
span_sentence from to = []

abbrev is_positive : ℤ → Bool
is_positive (pos (suc n)) = true
is_positive n = false

-- The host's query came back empty: alone, or while another one had rows.
abbrev host_is_empty : List ℤ → Bool
host_is_empty (pos zero ∷ []) = true
host_is_empty (pos zero ∷ n ∷ ns) = any is_positive (n ∷ ns)
host_is_empty ns = false

abbrev pub host_sentence : List Entry → List ℤ → Text
host_sentence [] ns = []
host_sentence (e ∷ es) ns =
    if host_is_empty ns
    then codes " Host (Query ID "
      ++ (e.query_id
          ++ codes
              ") returned 0 trades; in Settings > IB Connection > Flex ensure the purpose=trades row uses a Query that includes Activity > Trades and the date range covers your trades.")
    else []

abbrev pub error_sentence : List Text → Text
error_sentence [] = []
error_sentence (e ∷ es) = codes " Partial errors: " ++ join (codes "; ") (e ∷ es)

abbrev pub last_sentence : Option Text → Text
last_sentence none = []
last_sentence (some d) = codes " Latest Flex execution date after update: " ++ (d ++ codes ".")
