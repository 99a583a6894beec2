-- ===== src/Metrics/Tests.antt =====
-- api/http_metrics.py: two requests, one of which fails, and a label that is escaped.
use bifrost_platform_plugin.Common.{
  ℕ, ◌*◌, ◌≡◌, refl, true, false, none, some, List, [], ◌∷◌, ◌++◌, map,
}
use bifrost_platform_plugin.Common.Text.{Text, codes, text_eq, decimal}
use bifrost_platform_plugin.Common.Dicts.{find, or_default}
use bifrost_platform_plugin.Metrics.{escape}
use bifrost_platform_plugin.Metrics.Requests.{response_start, other_message, same_key}
use bifrost_platform_plugin.Metrics.Refines.{Refines}
use bifrost_platform_plugin.Metrics.Served.{Call, served, log_of, served-Refines}
use bifrost_platform_plugin.Metrics.Escape.{read_value, one_line, read_value-escape}

abbrev ms : ℕ → ℕ
ms n = n * 1000000

abbrev job_call : Call
job_call = record {
  is_http = true;
  route = some (codes "/flex/ingest/jobs");
  method = codes "GET";
  messages = (response_start 200, ms 300) ∷ (other_message, ms 310) ∷ [];
  raised = none;
}

abbrev failing_call : Call
failing_call = record job_call { messages = []; raised = some (ms 700) }

abbrev calls : List Call
calls = failing_call ∷ job_call ∷ record job_call { route = none } ∷ []

served-Refines_example : Refines (log_of calls) (served calls)
served-Refines_example = served-Refines calls

counted_once :
    or_default 0 (
      find same_key
        (codes "/flex/ingest/jobs" ∷ codes "GET" ∷ codes "5xx" ∷ [])
        (served calls).requests)
    ≡ 1
unfolding served text_eq same_key decimal
counted_once = refl

abbrev highr_total : ℕ
highr_total = (served calls).highr.n

timed_twice : highr_total ≡ 2
unfolding served text_eq
timed_twice = refl

abbrev path : Text
path = codes "a\\b\"c"

read_value-escape_example :
    read_value false (escape path ++ (34 ∷ codes "} 1")) ≡ some (map one_line path, codes "} 1")
read_value-escape_example = read_value-escape path (codes "} 1")
