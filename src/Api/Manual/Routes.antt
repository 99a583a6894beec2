-- ===== src/Api/Manual/Routes.antt =====
-- api/manual_ops.py: the two routes. What the runs of the orchestration return is an argument, and so is
-- what other transactions do to the two tables while a run takes its time. `repr_of` is repr() of a text.
use bifrost_platform_plugin.Common.{
  String, false, Option, none, some, [], ◌∷◌, ◌++◌, length, if◌then◌else◌, ℕ, str_eq,
}
use bifrost_platform_plugin.Common.Int.{pos}
use bifrost_platform_plugin.Common.Text.{Text, codes, strip, text_eq}
use bifrost_platform_plugin.Common.Json.{
  Json, null, bool, num, str, Dict, empty, entry, get, put, merge,
}
use bifrost_platform_plugin.Common.Result.{Result, ok, raise}
use bifrost_platform_plugin.Queue.{Queue}
use bifrost_platform_plugin.Slots.{set_default}
use bifrost_platform_plugin.Api.{HttpReply, answer, http_exception, server_error, str_value}
use bifrost_platform_plugin.Api.Settings.{body_or_empty, str_or}
use bifrost_platform_plugin.Api.Manual.{Trail, Database, audit_start, audit_finish}

pub record Fetches : Type 0 where
  pub trades : Dict → Dict
  pub transactions : Dict → Dict
  pub upload : Text → Dict

-- The dict once d.pop(k) took the key.
unfoldable pub without : Dict → String → Dict
without empty k = empty
without (entry j v d) k = let rest = without d k in if str_eq j k then d else entry j v rest

abbrev kind_or_trades : (Json → Text) → Option Json → Text
kind_or_trades print none = codes "trades"
kind_or_trades print (some v) = str_value print v

abbrev pub kind_of : (Json → Text) → Dict → Text
unfolding get strip
kind_of print payload = strip (kind_or_trades print (get payload "kind"))

-- The job kind and the run of a kind: _KIND_TO_JOB, and the two branches of the route.
abbrev pub run_of : Fetches → Text → Option (Text × (Dict → Dict))
run_of runs kind =
    if text_eq kind (codes "trades")
    then some (codes "flex-trades", runs.trades)
    else if text_eq kind (codes "transactions")
    then some (codes "flex-transactions", runs.transactions)
    else none

abbrev pub id_or_null : Option ℕ → Json
id_or_null none = null
id_or_null (some n) = num (pos n)

-- The body without its kind, and with a fallback that is off unless it is asked for.
unfoldable pub trigger_payload : Option Dict → Dict
unfolding without get put
trigger_payload body = set_default (without (body_or_empty body) "kind") "fallback" (bool false)

-- The answer, once the outcome is recorded; an exception leaves the tables as they are.
abbrev pub audited : Option ℕ → Dict → Trail → Result Trail → HttpReply Dict × Trail
audited job_id result t (raise e) = (server_error e, t)
audited job_id result t (ok after) = (answer (put result "job_id" (id_or_null job_id)), after)

module _ (print : Json → Text) (db : Database) (meanwhile : Trail → Trail) where
  unfoldable pub finished_run : Text → Dict → Option ℕ × Queue → Trail → HttpReply Dict × Trail
  unfolding audit_finish put
  finished_run job_kind result (job_id, q) t =
      let during = meanwhile (record t { queue = q }) in
      audited job_id result during (audit_finish print db job_kind job_id result during)

  -- An audited run: the row of the job, the run, its outcome.
  unfoldable pub audited_run : Text → Dict → Dict → Trail → HttpReply Dict × Trail
  unfolding audit_start finished_run
  audited_run job_kind body result t =
      finished_run job_kind result (audit_start db job_kind body t.queue) t

  unfoldable pub run_kind :
      (Text → Text) → Text → Dict → Option (Text × (Dict → Dict)) → Trail → HttpReply Dict × Trail
  unfolding audited_run merge
  run_kind repr_of kind payload none t = (
    http_exception 400
        (codes "unsupported kind: " ++ (repr_of kind ++ codes " (use 'trades' or 'transactions')")),
    t,
  )
  run_kind repr_of kind payload (some (job_kind, run)) t =
      audited_run job_kind (merge (entry "source" (str (codes "trigger")) empty) payload)
        (run payload) t

  unfoldable pub trigger_flex_fetch :
      (Text → Text) → Fetches → Option Dict → Trail → HttpReply Dict × Trail
  unfolding kind_of run_kind trigger_payload
  trigger_flex_fetch repr_of runs body t =
      let kind = kind_of print (body_or_empty body) in
      run_kind repr_of kind (trigger_payload body) (run_of runs kind) t

  abbrev upload_text : Fetches → Text → Trail → HttpReply Dict × Trail
  unfolding audited_run
  upload_text runs [] t = (http_exception 400 (codes "Missing 'xml' field in request body"), t)
  upload_text runs (c ∷ s) t =
      audited_run (codes "flex-trades")
        (entry "source" (str (codes "upload-xml"))
          (entry "bytes" (num (pos (length (c ∷ s)))) empty))
        (runs.upload (c ∷ s)) t

  unfoldable pub upload_flex_xml : Fetches → Dict → Trail → HttpReply Dict × Trail
  unfolding upload_text get strip
  upload_flex_xml runs body t = upload_text runs (strip (str_or print [] (get body "xml"))) t
