-- ===== src/Config/Write.antt =====
-- orchestration/config_rw.py: write_flex_config.
use bifrost_platform_plugin.Common.{
  ℕ, suc, Bool, true, false, ◌||◌, Option, none, some, List, [], ◌∷◌, leb, if◌then◌else◌,
}
use bifrost_platform_plugin.Common.Text.{Text, codes}
use bifrost_platform_plugin.Common.Int.{ℤ, pos, floor_at}
use bifrost_platform_plugin.Common.Json.{Json, obj, Dict}
use bifrost_platform_plugin.Common.Result.{Exception, data_error, Result, ok, raise, ◌>>=◌}
use bifrost_platform_plugin.Common.Fields.{text_field}
use bifrost_platform_plugin.Worker.{truthy}
use bifrost_platform_plugin.Schema.{SettingsRow}
use bifrost_platform_plugin.Config.{
  QueryRow, Golden, some_text, postgres_ready, is_filled, get_flex_range_days,
}

-- The largest value of a column of type integer.
abbrev pub max_integer : ℕ
max_integer = 2147483647

abbrev pub as_column : ℕ → Result (Option ℤ)
as_column n =
    if leb n max_integer
    then ok (some (pos n))
    else raise (data_error (codes "integer out of range"))

abbrev pub or_kept : Option ℕ → ℕ → ℕ
or_kept none n = n
or_kept (some m) n = m

-- COALESCE(%s, s.column)
abbrev pub coalesce : Option ℕ → Option ℤ → Result (Option ℤ)
coalesce none old = ok old
coalesce (some n) old = as_column n

-- INSERT … ON CONFLICT (id) DO UPDATE on flex_settings.
abbrev pub write_days :
    Option ℕ → Option ℕ → Golden → Option SettingsRow → Result (Option SettingsRow)
write_days days init golden none = do
  default ← as_column (or_kept days (get_flex_range_days golden).0)
  first ← as_column (or_kept init (get_flex_range_days golden).1)
  ok (some (default, first))
write_days days init golden (some old) = do
  default ← coalesce days old.0
  first ← coalesce init old.1
  ok (some (default, first))

abbrev pub or_cash : Text → Text
or_cash [] = codes "cash_transactions"
or_cash (c ∷ s) = c ∷ s

-- The row that stands for an account, at its place of the list.
unfoldable pub query_row : ℕ → Dict → Result QueryRow
unfolding text_field
query_row i a = do
  qh ← text_field a "query_host_id"
  qs ← text_field a "query_secondary_id"
  label ← text_field a "query_label"
  purp ← text_field a "purpose"
  ok (record {
    sort_order = i;
    query_label = some_text label;
    purpose = some (or_cash purp);
    query_host_id = some qh;
    query_secondary_id = some_text qs;
  })

unfoldable pub query_rows : ℕ → List Dict → Result (List QueryRow)
unfolding query_row
query_rows i [] = ok []
query_rows i (a ∷ accounts) =
    query_row i a >>= (λ r. query_rows (suc i) accounts >>= (λ rows. ok (r ∷ rows)))

-- The accounts that are dicts with a host query.
unfoldable pub valid_accounts : List Json → Result (List Dict)
unfolding text_field
valid_accounts [] = ok []
valid_accounts (obj a ∷ accounts) =
    text_field a "query_host_id"
    >>= (λ qh. valid_accounts accounts >>= (λ rest. ok (if is_filled qh then a ∷ rest else rest)))
valid_accounts (v ∷ accounts) = valid_accounts accounts

abbrev pub days_of : Option ℤ → Option ℕ
days_of none = none
days_of (some n) = some (floor_at 1 n)

abbrev pub is_some : Option ℕ → Bool
is_some none = false
is_some (some n) = true

abbrev pub settings_after : Option ℕ → Option ℕ → Golden → Result (Option SettingsRow)
settings_after days init golden =
    if is_some days || is_some init
    then write_days days init golden golden.settings
    else ok golden.settings

abbrev pub queries_after : Option (List Dict) → List QueryRow → Result (List QueryRow)
queries_after none rows = ok rows
queries_after (some accounts) rows = query_rows 0 accounts

-- What the transaction makes of the tables.
unfoldable pub transaction : Option (List Dict) → Option ℕ → Option ℕ → Golden → Result Golden
unfolding query_rows get_flex_range_days
transaction accounts days init golden = do
  settings ← settings_after days init golden
  queries ← queries_after accounts golden.queries
  ok (record { settings = settings; queries = queries })

-- Whether the write landed, and the tables; a statement that fails rolls the transaction back. `failure`
-- is the database error of a connection, a statement or the commit, if there is one.
abbrev pub landed : Option Exception → Golden → Result Golden → Bool × Golden
landed (some failure) golden after = (false, golden)
landed none golden (raise e) = (false, golden)
landed none golden (ok after) = (true, after)

abbrev pub write_valid :
    Option Exception → Option (List Dict) → Option ℕ → Option ℕ → Golden → Bool × Golden
write_valid failure (some []) days init golden = (false, golden)
write_valid failure none none none golden = (true, golden)
write_valid failure accounts days init golden =
    landed failure golden (transaction accounts days init golden)

abbrev pub given_accounts : Option (List Json) → Result (Option (List Dict))
given_accounts none = ok none
given_accounts (some accounts) = valid_accounts accounts >>= (λ valid. ok (some valid))

unfoldable pub write_flex_config :
    Option Exception
    → Dict
    → Option (List Json)
    → Option ℤ
    → Option ℤ
    → Golden
    → Result (Bool × Golden)
unfolding transaction valid_accounts truthy
write_flex_config failure config accounts default_days init_days golden =
    if postgres_ready config
    then given_accounts accounts >>= (λ valid.
      ok (write_valid failure valid (days_of default_days) (days_of init_days) golden))
    else ok (false, golden)
