-- ===== src/Metrics/Requests.antt =====
-- api/http_metrics.py: class HttpMetrics and its ASGI middleware. A key of a counter is the list of
-- its label values.
use bifrost_platform_plugin.Common.{
  ℕ, String, ◌*◌, ◌/◌, Bool, true, false, ◌&&◌, ◌||◌, Option, none, some, List, [], ◌∷◌, ◌++◌, map,
  any, if◌then◌else◌,
}
use bifrost_platform_plugin.Common.Text.{Text, codes, decimal, text_eq, text_le}
use bifrost_platform_plugin.Common.Dicts.{find, set, count_up, or_default}
use bifrost_platform_plugin.Metrics.{
  Label, labels, Histogram, new_histogram, observe, render_histogram,
}

-- UNRECORDED_HANDLERS
abbrev pub is_unrecorded : Text → Bool
is_unrecorded handler = text_eq handler (codes "/metrics")

-- UNTIMED_HANDLERS
abbrev pub is_untimed : Text → Bool
is_untimed handler = text_eq handler (codes "/metrics") || text_eq handler (codes "/health")

abbrev ms : ℕ → ℕ
ms n = n * 1000000

unfoldable pub duration_buckets : List ℕ
duration_buckets = map ms (100 ∷ 500 ∷ 1000 ∷ [])

unfoldable pub highr_buckets : List ℕ
highr_buckets = map ms (
    10 ∷ 25 ∷ 50 ∷ 75 ∷ 100 ∷ 250 ∷ 500 ∷ 750 ∷ 1000 ∷ 1500 ∷ 2000 ∷ 2500 ∷ 3000 ∷ 3500 ∷ 4000
    ∷ 4500 ∷ 5000 ∷ 7500 ∷ 10000 ∷ 30000 ∷ 60000 ∷ [])

pub known_methods : List String
known_methods = "GET" ∷ "HEAD" ∷ "POST" ∷ "PUT" ∷ "PATCH" ∷ "DELETE" ∷ "OPTIONS" ∷ []

unfoldable pub method_label : Text → Text
unfolding known_methods
method_label method =
    if any (λ m. text_eq (codes m) method) known_methods then method else codes "OTHER"

-- f"{status_code // 100}xx"
unfoldable pub status_class : ℕ → Text
status_class status_code = decimal (status_code / 100) ++ codes "xx"

abbrev pub Key : Type 0
Key = List Text

unfoldable pub same_key : Key → Key → Bool
same_key [] [] = true
same_key [] (t ∷ j) = false
same_key (s ∷ k) [] = false
same_key (s ∷ k) (t ∷ j) = text_eq s t && same_key k j

pub record HttpMetrics : Type 0 where
  pub requests : List (Key × ℕ)
  pub duration : List (Key × Histogram)
  pub highr : Histogram

unfoldable pub reset : HttpMetrics
unfolding new_histogram highr_buckets
reset = record { requests = []; duration = []; highr = new_histogram highr_buckets }

-- The counters and histograms once the request counts: `observe` under the lock.
unfoldable pub time_request : Key → ℕ → HttpMetrics → HttpMetrics
unfolding find set observe new_histogram duration_buckets
time_request key seconds m = record m {
  duration =
      set same_key key
        (observe seconds
          (or_default (new_histogram duration_buckets) (find same_key key m.duration)))
        m.duration;
  highr = observe seconds m.highr;
}

unfoldable pub observe_request : Text → Text → ℕ → ℕ → HttpMetrics → HttpMetrics
unfolding count_up method_label status_class time_request
observe_request handler method status_code seconds m =
    if is_unrecorded handler
    then m
    else let label = method_label method in
      let counted = record m {
        requests = count_up same_key (handler ∷ label ∷ status_class status_code ∷ []) m.requests;
      } in
      if is_untimed handler then counted else time_request (handler ∷ label ∷ []) seconds counted

key_le : Key → Key → Bool
key_le [] j = true
key_le (s ∷ k) [] = false
key_le (s ∷ k) (t ∷ j) = let rest = key_le k j in if text_eq s t then rest else text_le s t

insert_item {ℓ} : {V : Type ℓ} → Key × V → List (Key × V) → List (Key × V)
unfolding key_le
insert_item (k, v) [] = (k, v) ∷ []
insert_item (k, v) ((j, w) ∷ items) =
    let rest = insert_item (k, v) items in
    if key_le k j then (k, v) ∷ (j, w) ∷ items else (j, w) ∷ rest

-- sorted(d.items()): the keys of a dict differ, so the values are not compared.
unfoldable pub sorted_items {ℓ} : {V : Type ℓ} → List (Key × V) → List (Key × V)
unfolding insert_item
sorted_items [] = []
sorted_items ((k, v) ∷ items) = insert_item (k, v) (sorted_items items)

-- The names of the labels with the values of a key.
abbrev pub pairs_of : List String → Key → List Label
pairs_of [] key = []
pairs_of (name ∷ names) [] = []
pairs_of (name ∷ names) (value ∷ key) = (name, value) ∷ pairs_of names key

-- "\n".join(out) + "\n"
abbrev pub lines : List Text → Text
lines [] = []
lines (line ∷ out) = line ++ (10 ∷ lines out)

request_line : Key × ℕ → Text
unfolding labels
request_line item =
    codes "http_requests_total{"
    ++ (labels (pairs_of ("handler" ∷ "method" ∷ "status" ∷ []) item.0)
        ++ (codes "} " ++ decimal item.1))

module _ (float_text : ℕ → Text) where
  duration_lines : List (Key × Histogram) → List Text
  unfolding render_histogram
  duration_lines [] = []
  duration_lines ((key, h) ∷ items) =
      render_histogram float_text (codes "http_request_duration_seconds")
        (pairs_of ("handler" ∷ "method" ∷ []) key) h
      ++ duration_lines items

  unfoldable pub render : HttpMetrics → Text
  unfolding request_line duration_lines sorted_items render_histogram
  render m = lines (
      codes "# HELP http_requests_total Total number of requests by method, status and handler."
        ∷ codes "# TYPE http_requests_total counter"
        ∷ []
      ++ (map request_line (sorted_items m.requests)
          ++ (codes "# HELP http_request_duration_seconds Latency with only few buckets by handler."
                ∷ codes "# TYPE http_request_duration_seconds histogram"
                ∷ []
              ++ (duration_lines (sorted_items m.duration)
                  ++ (codes
                          "# HELP http_request_duration_highr_seconds Latency with many buckets but no API specific labels."
                        ∷ codes "# TYPE http_request_duration_highr_seconds histogram"
                        ∷ []
                      ++ render_histogram float_text (codes "http_request_duration_highr_seconds")
                          [] m.highr)))))

-- What the application sends.
pub data AsgiMessage : Type 0 where
  response_start : ℕ → AsgiMessage
  other_message : AsgiMessage

-- The middleware round one call of the application: `route` is the template of the route that
-- matched, and each message stands with the time since the start.
module _ (route : Option Text) (method : Text) where
  unfoldable pub record_status : ℕ → ℕ → HttpMetrics → HttpMetrics
  unfolding observe_request
  record_status status_code seconds m = elim route [
    | none ↦ m
    | some handler ↦ observe_request handler method status_code seconds m
  ]

  unfoldable pub send_and_record : AsgiMessage × ℕ → Bool × HttpMetrics → Bool × HttpMetrics
  unfolding record_status
  send_and_record (response_start status, t) (false, m) = (true, record_status status t m)
  send_and_record (response_start status, t) (true, m) = (true, m)
  send_and_record (other_message, t) (started, m) = (started, m)

  unfoldable pub send_all : List (AsgiMessage × ℕ) → Bool × HttpMetrics → Bool × HttpMetrics
  unfolding send_and_record
  send_all [] st = st
  send_all (message ∷ messages) st = send_all messages (send_and_record message st)

  -- What an exception that left the application at the time `raised` adds.
  abbrev at_end : Option ℕ → Bool × HttpMetrics → HttpMetrics
  at_end none st = st.1
  at_end (some t) (true, m) = m
  at_end (some t) (false, m) = record_status 500 t m

  unfoldable pub serve : Bool → List (AsgiMessage × ℕ) → Option ℕ → HttpMetrics → HttpMetrics
  unfolding send_all record_status
  serve false messages raised m = m
  serve true messages raised m = at_end raised (send_all messages (false, m))
