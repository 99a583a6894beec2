-- ===== src/Config/Tests.antt =====
-- orchestration/config_rw.py: a configuration of one row that is replaced by two.
use bifrost_platform_plugin.Common.{◌≡◌, refl, true, false, none, some, List, [], ◌∷◌}
use bifrost_platform_plugin.Common.Text.{codes, text_eq, strip}
use bifrost_platform_plugin.Common.Int.{pos}
use bifrost_platform_plugin.Common.Json.{Json, str, obj, null, Dict, empty, entry}
use bifrost_platform_plugin.Common.Fields.{text_field}
use bifrost_platform_plugin.Common.Result.{Exception, operational_error, ok}
use bifrost_platform_plugin.Config.{Golden, Environment, get_flex_config, get_purpose_entries}
use bifrost_platform_plugin.Config.Write.{write_flex_config, valid_accounts, given_accounts}
use bifrost_platform_plugin.Config.Saved.{ShowAll, write_flex_config-ShowAll}

abbrev config : Dict
config = entry "sink" (str (codes "postgres")) empty

abbrev env : Environment
env = record { flex_host_token = some (codes "H"); flex_secondary_token = some (codes " S ") }

abbrev before : Golden
before = record {
  settings = some (some (pos 30), some (pos 360));
  queries =
      (record {
        sort_order = 0;
        query_label = none;
        purpose = some (codes "trades");
        query_host_id = some (codes "1, 2");
        query_secondary_id = none;
      })
      ∷ [];
}

abbrev cash_account : Dict
cash_account = entry "query_host_id" (str (codes " 7 ")) empty

abbrev trades_account : Dict
trades_account =
    entry "query_host_id" (str (codes "8"))
      (entry "query_secondary_id" (str (codes "9")) (entry "purpose" (str (codes "trades")) empty))

abbrev accounts : List Json
accounts = obj cash_account ∷ null ∷ obj trades_account ∷ []

abbrev after : Golden
after = record {
  settings = some (some (pos 45), some (pos 360));
  queries =
      (record {
        sort_order = 0;
        query_label = none;
        purpose = some (codes "cash_transactions");
        query_host_id = some (codes "7");
        query_secondary_id = none;
      })
      ∷ (record {
        sort_order = 1;
        query_label = none;
        purpose = some (codes "trades");
        query_host_id = some (codes "8");
        query_secondary_id = some (codes "9");
      })
      ∷ [];
}

valid : valid_accounts accounts ≡ ok (cash_account ∷ trades_account ∷ [])
unfolding valid_accounts text_field strip
valid = refl

given : given_accounts (some accounts) ≡ ok (some (cash_account ∷ trades_account ∷ []))
unfolding valid_accounts text_field strip
given = refl

written :
    write_flex_config none config (some accounts) (some (pos 45)) none before ≡ ok (true, after)
unfolding write_flex_config text_eq strip
written = refl

write_flex_config-ShowAll_example :
    ShowAll (cash_account ∷ trades_account ∷ []) (get_flex_config env after).2
write_flex_config-ShowAll_example =
    write_flex_config-ShowAll none config accounts (cash_account ∷ trades_account ∷ [])
      (some (pos 45)) none before after env valid written

-- An outage leaves the tables alone.
abbrev outage : Exception
outage = operational_error (codes "server closed the connection unexpectedly")

lost :
    write_flex_config (some outage) config (some accounts) (some (pos 45)) none before
    ≡ ok (false, before)
unfolding write_flex_config text_eq strip
lost = refl

-- Both ids of the host's column become entries, and an empty column none.
entries_before :
    get_purpose_entries env before (codes "trades")
    ≡ (record {
      token = codes "H";
      query_id = codes "1";
      role = codes "host";
      query_label = none;
      purpose = some (codes "trades");
    })
      ∷ (record {
        token = codes "H";
        query_id = codes "2";
        role = codes "host";
        query_label = none;
        purpose = some (codes "trades");
      })
      ∷ []
unfolding get_purpose_entries text_eq
entries_before = refl
