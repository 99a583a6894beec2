-- ===== src/Api/Settings.antt =====
-- api/config_summary.py: the summary of the Flex configuration, and its write.
use bifrost_platform_plugin.Common.{
  ℕ, ◌-◌, String, Bool, true, false, ◌||◌, not, Option, none, some, List, [], ◌∷◌, ◌++◌,
  if◌then◌else◌, map, any, length, drop,
}
use bifrost_platform_plugin.Common.Int.{ℤ, pos, floor_at}
use bifrost_platform_plugin.Common.Text.{Text, codes, strip, text_eq}
use bifrost_platform_plugin.Common.Json.{
  Json, null, str, arr, obj, Items, nil, cons, Dict, empty, entry, get, int_of, is_dict_key,
}
use bifrost_platform_plugin.Common.Result.{Exception, type_error, Result, ok, raise, ◌>>=◌, message}
use bifrost_platform_plugin.Worker.{truthy}
use bifrost_platform_plugin.Config.{
  Environment, Golden, QueryRow, resolve_flex_tokens, some_text, stripped_or, in_order,
  get_flex_range_days,
}
use bifrost_platform_plugin.Config.Write.{or_cash, write_flex_config}
use bifrost_platform_plugin.Api.{HttpReply, answer, http_exception, server_error, str_value}

-- s[-4:]
abbrev pub last_four : Text → Text
last_four s = drop (length s - 4) s

abbrev pub masked : Text → Option Text
masked [] = none
masked (c ∷ s) = some (last_four (c ∷ s))

unfoldable pub mask_token_last4 : Text → Option Text
unfolding strip
mask_token_last4 token = masked (strip token)

-- _blank_to_none of a column
abbrev pub blank_to_none : Option Text → Option Text
blank_to_none none = none
blank_to_none (some s) = some_text (strip s)

abbrev or_cash_transactions : Option Text → Text
or_cash_transactions none = codes "cash_transactions"
or_cash_transactions (some s) = s

pub record SummaryRow : Type 0 where
  pub purpose : Text
  pub query_label : Option Text
  pub query_host_id : Text
  pub query_secondary_id : Option Text

unfoldable pub summary_row : QueryRow → SummaryRow
unfolding strip
summary_row r = record {
  purpose = or_cash_transactions (blank_to_none r.purpose);
  query_label = blank_to_none r.query_label;
  query_host_id = stripped_or r.query_host_id;
  query_secondary_id = blank_to_none r.query_secondary_id;
}

pub record Summary : Type 0 where
  pub host_token_last4 : Option Text
  pub secondary_token_last4 : Option Text
  pub host_token_set : Bool
  pub secondary_token_set : Bool
  pub host_source : Text
  pub secondary_source : Text
  pub issued_at : Option Text
  pub age_days : Option ℕ
  pub source : Text
  pub default_days : ℕ
  pub init_days : ℕ
  pub query_rows : List SummaryRow

abbrev pub is_set : Option Text → Bool
is_set none = false
is_set (some s) = true

abbrev is_secret : Text → Bool
is_secret source = text_eq source (codes "secret")

abbrev rows_shown : Option Exception → Golden → List SummaryRow
rows_shown (some e) golden = []
rows_shown none golden = map summary_row (in_order golden.queries)

-- `unreadable` is the error of the settings read, and `broken` that of the query, if there is one;
-- `issued` is what flex_tokens_issued_at tells.
unfoldable pub config_summary :
    Environment
    → Option Text × Option ℕ
    → Option Exception
    → Option Exception
    → Golden
    → HttpReply Summary
unfolding mask_token_last4 summary_row in_order get_flex_range_days
config_summary env issued (some e) broken golden =
    http_exception 503 (codes "flex settings unreadable: " ++ message e)
config_summary env issued none broken golden =
    let (host_tok, sec_tok, host_src, sec_src) = resolve_flex_tokens env in
    let (default_days, init_days) = get_flex_range_days golden in
    answer (record {
      host_token_last4 = mask_token_last4 host_tok;
      secondary_token_last4 = mask_token_last4 sec_tok;
      host_token_set = is_set (mask_token_last4 host_tok);
      secondary_token_set = is_set (mask_token_last4 sec_tok);
      host_source = host_src;
      secondary_source = sec_src;
      issued_at = issued.0;
      age_days = issued.1;
      source = if is_secret host_src || is_secret sec_src then codes "secret" else codes "none";
      default_days = default_days;
      init_days = init_days;
      query_rows = rows_shown broken golden;
    })

-- _optional_days
unfoldable pub optional_days : Option Json → Option ℤ
optional_days none = none
optional_days (some v) = elim (int_of v) [ none ↦ none | some n ↦ some (pos (floor_at 1 n)) ]

-- What a `for` over the value goes through: a dict by its keys, a text by its characters.
abbrev keys : Dict → List Json
keys empty = []
keys (entry k v d) = str (codes k) ∷ keys d

abbrev pub items : Items → List Json
items nil = []
items (cons v vs) = v ∷ items vs

unfoldable pub iterate : Option Json → Result (List Json)
iterate none = ok []
iterate (some (arr vs)) = ok (items vs)
iterate (some (obj d)) = ok (keys d)
iterate (some (str s)) = ok (map (λ c. str (c ∷ [])) s)
iterate (some v) = if truthy v then raise (type_error (codes "object is not iterable")) else ok []

-- text or None, as a value of the answer
abbrev pub null_if_empty : Text → Json
null_if_empty [] = null
null_if_empty (c ∷ s) = str (c ∷ s)

module _ (print : Json → Text) where
  -- str(v or default)
  abbrev pub str_or : Text → Option Json → Text
  str_or default none = default
  str_or default (some v) = if truthy v then str_value print v else default

  -- str(a.get(k) or default).strip()
  unfoldable pub str_field : Dict → String → Text → Text
  unfolding get strip
  str_field a k default = strip (str_or default (get a k))

  unfoldable pub normal_account : Dict → Text → Dict
  unfolding str_field
  normal_account a qh = entry "query_host_id" (str qh) (
      entry "query_secondary_id" (null_if_empty (str_field a "query_secondary_id" [])) (
        entry "query_label" (null_if_empty (str_field a "query_label" [])) (
          entry "purpose" (str (or_cash (str_field a "purpose" (codes "cash_transactions"))))
            empty)))

  abbrev pub with_host : Dict → Text → List Dict → List Dict
  unfolding normal_account
  with_host a [] rest = rest
  with_host a (c ∷ qh) rest = normal_account a (c ∷ qh) ∷ rest

  unfoldable pub normal_accounts : List Json → List Dict
  unfolding str_field normal_account
  normal_accounts [] = []
  normal_accounts (obj a ∷ raw) = with_host a (str_field a "query_host_id" []) (normal_accounts raw)
  normal_accounts (v ∷ raw) = normal_accounts raw

  unfoldable pub normalize_flex_accounts : Option Json → Result (List Dict)
  unfolding iterate normal_accounts
  normalize_flex_accounts raw = iterate raw >>= (λ values. ok (normal_accounts values))

-- What the write answers.
pub record Written : Type 0 where
  pub accounts : Option (List Dict)
  pub default_days : Option ℤ
  pub init_days : Option ℤ

abbrev pub names_any : List String → Dict → Bool
names_any names payload = any (λ name. is_dict_key payload name) names

unfoldable pub token_fields : List String
token_fields = "host_token" ∷ "secondary_token" ∷ []

unfoldable pub write_fields : List String
write_fields = "accounts" ∷ "flex_default_range_days" ∷ "flex_init_range_days" ∷ []

unfoldable pub tokens_not_stored : Text
tokens_not_stored =
    codes
      "Flex tokens are not stored by this endpoint. Set them in the K8s Secret bifrost-flex-tokens (make sync-flex-tokens)."

-- What the write answers once write_flex_config returned or raised.
abbrev pub write_reply : Written → Golden → Result (Bool × Golden) → HttpReply Written × Golden
write_reply w golden (raise e) = (server_error e, golden)
write_reply w golden (ok (true, after)) = (answer w, after)
write_reply w golden (ok (false, after)) =
    (http_exception 500 (codes "failed to write flex config"), after)

-- body or {}
abbrev pub body_or_empty : Option Dict → Dict
body_or_empty none = empty
body_or_empty (some p) = p

-- The accounts as the values that write_flex_config takes.
abbrev pub as_values : Option (List Dict) → Option (List Json)
as_values none = none
as_values (some accounts) = some (map obj accounts)

module _ (print : Json → Text) (failure : Option Exception) (config : Dict) where
  unfoldable pub write_days_and : Dict → Golden → Option (List Dict) → HttpReply Written × Golden
  unfolding write_flex_config optional_days get
  write_days_and payload golden accounts =
      let default_days = optional_days (get payload "flex_default_range_days") in
      let init_days = optional_days (get payload "flex_init_range_days") in
      write_reply
        (record { accounts = accounts; default_days = default_days; init_days = init_days }) golden
        (write_flex_config failure config (as_values accounts) default_days init_days golden)

  unfoldable pub with_accounts : Dict → Golden → Result (List Dict) → HttpReply Written × Golden
  unfolding write_days_and
  with_accounts payload golden (raise e) = (server_error e, golden)
  with_accounts payload golden (ok []) =
      (http_exception 400 (codes "accounts must include at least one query_host_id"), golden)
  with_accounts payload golden (ok (a ∷ accounts)) =
      write_days_and payload golden (some (a ∷ accounts))

  -- `failure` is the database error of the write, if there is one, and `config` is the part of the
  -- configuration that write_flex_config reads.
  unfoldable pub write_flex_config_endpoint : Option Dict → Golden → HttpReply Written × Golden
  unfolding token_fields write_fields tokens_not_stored with_accounts write_days_and
      normalize_flex_accounts get
  write_flex_config_endpoint body golden =
      let payload = body_or_empty body in
      if names_any token_fields payload
      then (http_exception 409 tokens_not_stored, golden)
      else if not (names_any write_fields payload)
      then (http_exception 400 (codes "empty flex config write"), golden)
      else if is_dict_key payload "accounts"
      then with_accounts payload golden (normalize_flex_accounts print (get payload "accounts"))
      else write_days_and payload golden none
