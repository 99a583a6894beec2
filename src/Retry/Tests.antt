-- ===== src/Retry/Tests.antt =====
-- worker/retry.py on a few error texts.
use bifrost_platform_plugin.Common.{◌≡◌, ◌++◌}
use bifrost_platform_plugin.Common.Int.{pos}
use bifrost_platform_plugin.Common.Text.{codes}
use bifrost_platform_plugin.Common.Json.{Dict, num, empty, entry}
use bifrost_platform_plugin.Retry.{throttled, classify_flex_error, default_policy, plan_retry}
use bifrost_platform_plugin.Retry.Codes.{classify-throttled}
use bifrost_platform_plugin.Retry.Plan.{Promise, plan_retry-Promise}

classify-throttled_example :
    classify_flex_error
      (codes "IB Flex error [10" ++ (codes "[1018]" ++ codes " Too many requests"))
    ≡ throttled
classify-throttled_example =
    classify-throttled (codes "IB Flex error [10") (codes " Too many requests")

plan_retry-Promise_example :
    Promise throttled 1 3 default_policy (plan_retry throttled 1 3 default_policy)
plan_retry-Promise_example = plan_retry-Promise throttled 1 3 default_policy

abbrev hasty : Dict
hasty = entry "transient_delay_sec" (num (pos 5)) empty
