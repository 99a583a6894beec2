-- ===== src/Calendar/Tests.antt =====
-- datetime on a few texts.
use bifrost_platform_plugin.Common.{◌*◌, ◌≡◌, refl, some}
use bifrost_platform_plugin.Common.Text.{codes}
use bifrost_platform_plugin.Calendar.{strptime, ymd}

plain_day : strptime ymd (codes "20261126") ≡ some (739946 * 86400)
unfolding strptime
plain_day = refl
