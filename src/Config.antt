-- ===== src/Config.antt =====
-- orchestration/config_rw.py: the query rows (raw_broker.settings_flex), the range days (flex_settings), the
-- tokens of the environment.
pub mod Write
pub mod Saved
pub mod Days
mod Tests
use bifrost_platform_plugin.Common.{
  ℕ, zero, suc, ◌+◌, Bool, true, false, ◌&&◌, ◌||◌, not, Option, none, some, List, [], ◌∷◌, ◌++◌,
  ltb, leb, ◌==◌, if◌then◌else◌, map, filter, String,
}
use bifrost_platform_plugin.Common.Text.{Text, codes, strip, text_eq}
use bifrost_platform_plugin.Common.Int.{ℤ, pos, floor_at}
use bifrost_platform_plugin.Common.Json.{Json, obj, str, Dict, empty, entry, get}
use bifrost_platform_plugin.Common.Result.{Exception, data_error, Result, ok, raise, ◌>>=◌}
use bifrost_platform_plugin.Common.Fields.{text_field}
use bifrost_platform_plugin.Cron.{split_by}
use bifrost_platform_plugin.Worker.{truthy}
use bifrost_platform_plugin.Schema.{SettingsRow, read_flex_settings}

-- A row of raw_broker.settings_flex; the table in the order of the ids.
pub record QueryRow : Type 0 where
  pub sort_order : ℕ
  pub query_label : Option Text
  pub purpose : Option Text
  pub query_host_id : Option Text
  pub query_secondary_id : Option Text

-- The two tables of the Golden Source.
pub record Golden : Type 0 where
  pub settings : Option SettingsRow
  pub queries : List QueryRow

-- FLEX_HOST_TOKEN and FLEX_SECONDARY_TOKEN
pub record Environment : Type 0 where
  pub flex_host_token : Option Text
  pub flex_secondary_token : Option Text

-- (x or "").strip()
abbrev pub stripped_or : Option Text → Text
stripped_or none = []
stripped_or (some s) = strip s

-- s or None
abbrev pub some_text : Text → Option Text
some_text [] = none
some_text (c ∷ s) = some (c ∷ s)

abbrev pub source_of : Text → Text
source_of [] = codes "none"
source_of (c ∷ s) = codes "secret"

-- The tokens, and where each comes from.
abbrev pub resolve_flex_tokens : Environment → Text × Text × Text × Text
resolve_flex_tokens env =
    let host = stripped_or env.flex_host_token in
    let sec = stripped_or env.flex_secondary_token in (host, sec, source_of host, source_of sec)

abbrev bool_at : Option Json → Bool
bool_at none = false
bool_at (some v) = truthy v

abbrev is_text_at : Option Json → String → Bool
is_text_at (some (str s)) t = text_eq s (codes t)
is_text_at v t = false

abbrev pub postgres_ready : Dict → Bool
postgres_ready config = is_text_at (get config "sink") "postgres" || bool_at (get config "postgres")

-- ORDER BY sort_order, id
unfoldable pub place : QueryRow → List QueryRow → List QueryRow
place r [] = r ∷ []
place r (q ∷ rows) =
    let rest = place r rows in if leb r.sort_order q.sort_order then r ∷ q ∷ rows else q ∷ rest

unfoldable pub in_order : List QueryRow → List QueryRow
unfolding place
in_order [] = []
in_order (r ∷ rows) = place r (in_order rows)

abbrev has_purpose : Text → QueryRow → Bool
has_purpose p r = elim r.purpose [ none ↦ false | some q ↦ text_eq q p ]

-- An entry of a run: a token and one of its queries.
pub record Entry : Type 0 where
  pub token : Text
  pub query_id : Text
  pub role : Text
  pub query_label : Option Text
  pub purpose : Option Text

abbrev pub is_filled : Text → Bool
is_filled [] = false
is_filled (c ∷ s) = true

-- The ids of a column, which are separated by commas.
unfoldable pub query_ids : Option Text → List Text
unfolding split_by strip
query_ids none = []
query_ids (some raw) = filter is_filled (map strip (split_by (λ c. c == b',') raw))

unfoldable pub role_entries : Text → String → Option Text → Option Text → Option Text → List Entry
unfolding query_ids
role_entries [] role raw label purp = []
role_entries (c ∷ tok) role raw label purp =
    map
      (λ qid. record {
        token = c ∷ tok;
        query_id = qid;
        role = codes role;
        query_label = label;
        purpose = purp;
      })
      (query_ids raw)

-- `_query_entries`
unfoldable pub query_entries : List QueryRow → Text → Text → List Entry
unfolding role_entries
query_entries [] host_tok sec_tok = []
query_entries (r ∷ rows) host_tok sec_tok =
    let label = some_text (stripped_or r.query_label) in
    let purp = some_text (stripped_or r.purpose) in
    role_entries host_tok "host" r.query_host_id label purp
    ++ (role_entries sec_tok "secondary" r.query_secondary_id label purp
        ++ query_entries rows host_tok sec_tok)

-- get_flex_config with a purpose.
unfoldable pub get_purpose_entries : Environment → Golden → Text → List Entry
unfolding in_order query_entries
get_purpose_entries env golden p =
    let (host, sec, host_src, sec_src) = resolve_flex_tokens env in
    query_entries (in_order (filter (has_purpose p) golden.queries)) host sec

-- A row as get_flex_config shows it; an optional key that is left out is `none`.
pub record ShownRow : Type 0 where
  pub query_host_id : Text
  pub query_secondary_id : Option Text
  pub query_label : Option Text
  pub purpose : Option Text

abbrev pub shown_row : QueryRow → ShownRow
shown_row r = record {
  query_host_id = stripped_or r.query_host_id;
  query_secondary_id = some_text (stripped_or r.query_secondary_id);
  query_label = some_text (stripped_or r.query_label);
  purpose = some_text (stripped_or r.purpose);
}

-- get_flex_config without a purpose.
unfoldable pub get_flex_config : Environment → Golden → Option Text × Option Text × List ShownRow
unfolding in_order strip
get_flex_config env golden =
    let (host, sec, host_src, sec_src) = resolve_flex_tokens env in
    (some_text host, some_text sec, map shown_row (in_order golden.queries))

abbrev pub or_days : Option (ℕ × ℕ) → ℕ × ℕ
or_days none = (30, 360)
or_days (some got) = got

unfoldable pub get_flex_range_days : Golden → ℕ × ℕ
unfolding read_flex_settings
get_flex_range_days golden = or_days (read_flex_settings golden.settings)
