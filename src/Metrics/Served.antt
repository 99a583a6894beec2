-- ===== src/Metrics/Served.antt =====
-- api/http_metrics.py: the calls that pass through the middleware, and the log that they leave.
use bifrost_platform_plugin.Common.{
  ℕ, ◌≡◌, refl, ◌∙◌, ap, sym, subst, Bool, true, false, Option, none, some, List, [], ◌∷◌,
}
use bifrost_platform_plugin.Common.Text.{Text}
use bifrost_platform_plugin.Metrics.Requests.{
  HttpMetrics, AsgiMessage, response_start, other_message, reset, record_status, send_and_record,
  send_all, serve,
}
use bifrost_platform_plugin.Metrics.Refines.{Request, observed, Refines, observed-Refines}

-- One call: the route that matched it, what the application sent, and when it raised, if it did.
pub record Call : Type 0 where
  pub is_http : Bool
  pub route : Option Text
  pub method : Text
  pub messages : List (AsgiMessage × ℕ)
  pub raised : Option ℕ

-- The metrics after the calls, the latest first.
unfoldable pub served : List Call → HttpMetrics
unfolding serve reset
served [] = reset
served (c ∷ calls) = serve c.route c.method c.is_http c.messages c.raised (served calls)

abbrev internal_error : Option ℕ → Option (ℕ × ℕ)
internal_error none = none
internal_error (some t) = some (500, t)

-- The status that the client sees, and when: that of the first start of a response, or 500 for an
-- exception before any.
unfoldable pub answer : List (AsgiMessage × ℕ) → Option ℕ → Option (ℕ × ℕ)
answer [] raised = internal_error raised
answer ((response_start status, t) ∷ messages) raised = some (status, t)
answer ((other_message, t) ∷ messages) raised = answer messages raised

abbrev as_request : Text → Text → Option (ℕ × ℕ) → List Request → List Request
as_request handler method none log = log
as_request handler method (some (status, t)) log =
    record { handler = handler; method = method; status_code = status; seconds = t } ∷ log

abbrev logged : Bool → Option Text → Text → Option (ℕ × ℕ) → List Request → List Request
logged false route method status log = log
logged true none method status log = log
logged true (some handler) method status log = as_request handler method status log

-- The requests of the calls: the HTTP calls that matched a route and were answered.
unfoldable pub log_of : List Call → List Request
unfolding answer
log_of [] = []
log_of (c ∷ calls) = logged c.is_http c.route c.method (answer c.messages c.raised) (log_of calls)

module _ (route : Option Text) (method : Text) where
  -- Once the response has started, no message is recorded.
  send_all-started :
      (messages : List (AsgiMessage × ℕ)) (m : HttpMetrics)
      → send_all route method messages (true, m) ≡ (true, m)
  unfolding send_all send_and_record
  send_all-started [] m = refl
  send_all-started ((response_start status, t) ∷ messages) m = send_all-started messages m
  send_all-started ((other_message, t) ∷ messages) m = send_all-started messages m

  abbrev answered : Option (ℕ × ℕ) → HttpMetrics → HttpMetrics
  unfolding record_status
  answered none m = m
  answered (some (status, t)) m = record_status route method status t m

  serve-answered :
      (messages : List (AsgiMessage × ℕ)) (raised : Option ℕ) (m : HttpMetrics)
      → serve route method true messages raised m ≡ answered (answer messages raised) m
  unfolding serve send_all send_and_record answer
  serve-answered [] none m = refl
  serve-answered [] (some t) m = refl
  serve-answered ((response_start status, t) ∷ messages) none m =
      rw (send_all-started messages (record_status route method status t m)) refl
  serve-answered ((response_start status, t) ∷ messages) (some e) m =
      rw (send_all-started messages (record_status route method status t m)) refl
  serve-answered ((other_message, t) ∷ messages) none m = serve-answered messages none m
  serve-answered ((other_message, t) ∷ messages) (some e) m = serve-answered messages (some e) m

answered-unrouted :
    (method : Text) (status : Option (ℕ × ℕ)) (m : HttpMetrics) → answered none method status m ≡ m
unfolding record_status
answered-unrouted method none m = refl
answered-unrouted method (some (status, t)) m = refl

answered-observed :
    (handler method : Text) (status : Option (ℕ × ℕ)) (log : List Request)
    → answered (some handler) method status (observed log)
      ≡ observed (as_request handler method status log)
unfolding record_status observed
answered-observed handler method none log = refl
answered-observed handler method (some (status, t)) log = refl

serve-logged :
    (is_http : Bool) (route : Option Text) (method : Text) (messages : List (AsgiMessage × ℕ))
    (raised : Option ℕ) (log : List Request)
    → serve route method is_http messages raised (observed log)
      ≡ observed (logged is_http route method (answer messages raised) log)
unfolding serve
serve-logged false route method messages raised log = refl
serve-logged true none method messages raised log =
    serve-answered none method messages raised (observed log)
    ∙ answered-unrouted method (answer messages raised) (observed log)
serve-logged true (some handler) method messages raised log =
    serve-answered (some handler) method messages raised (observed log)
    ∙ answered-observed handler method (answer messages raised) log

served-observed : (calls : List Call) → served calls ≡ observed (log_of calls)
unfolding served log_of observed
served-observed [] = refl
served-observed (c ∷ calls) =
    ap (serve c.route c.method c.is_http c.messages c.raised) (served-observed calls)
    ∙ serve-logged c.is_http c.route c.method c.messages c.raised (log_of calls)

-- Whatever calls pass through the middleware, in whatever order, the metrics refine their log: each
-- HTTP call that matched a route counts once, with the status of its first response start, or with
-- 500 where an exception left the application before any. In the metrics the counter of each handler,
-- method and status class is the number of recorded requests with it; a handler and method have a
-- histogram exactly if a request of theirs was timed, and each of its bucket rows, as each row of the
-- histogram of all requests, has the number of timed requests that took no longer than its bound,
-- next to the number of all and the sum of their durations.
pub served-Refines : (calls : List Call) → Refines (log_of calls) (served calls)
served-Refines calls =
    subst (Refines (log_of calls)) (sym (served-observed calls)) (observed-Refines (log_of calls))
