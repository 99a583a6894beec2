-- ===== src/Flex/Statement.antt =====
-- client/flex_client.py: GetStatement. `answers` is what the service answers to each poll. The pauses
-- between the polls are left out.
use bifrost_platform_plugin.Common.{
  ℕ, zero, suc, ◌+◌, Bool, true, false, not, Option, none, some, List, [], ◌∷◌, ◌++◌, if◌then◌else◌,
  any,
}
use bifrost_platform_plugin.Common.Text.{Text, codes, text_eq, decimal}
use bifrost_platform_plugin.Common.Result.{Exception, value_error, Result, ok, raise}
use bifrost_platform_plugin.Flex.{
  Element, Parsed, tree, malformed, Reply, body, refused, broken, tag, text_of, or_text, local_name,
  iter, is_named,
}
pub mod Polls

abbrev pub max_get_statement_polls : ℕ
max_get_statement_polls = 24

-- "Status [Code] Message", which the retry policy reads, or "Status: Message".
abbrev unready_message : Text → Text → Text → Text
unready_message status [] msg = status ++ (codes ": " ++ msg)
unready_message status (c ∷ code) msg =
    status ++ (codes " [" ++ ((c ∷ code) ++ (codes "] " ++ msg)))

abbrev unready_response : Element → Text
unready_response root =
    unready_message (or_text (text_of root "Status" []) (codes "no Status"))
      (text_of root "ErrorCode" [])
      (or_text (text_of root "ErrorMessage" []) (codes "Report not ready"))

abbrev tree_not_ready : Element → Option Text
tree_not_ready root =
    if is_named "FlexStatementResponse" root
    then some (unready_response root)
    else if not (is_named "FlexQueryResponse" root)
    then some (codes "unexpected <" ++ (local_name (tag root) ++ codes "> response"))
    else if any (is_named "FlexStatement") (iter root)
    then none
    else some (codes "FlexQueryResponse without a FlexStatement")

abbrev parsed_not_ready : Parsed → Option Text
parsed_not_ready (malformed e) = some (codes "response is not XML (" ++ (e ++ codes ")"))
parsed_not_ready (tree root) = tree_not_ready root

abbrev shown : Option Text → Text
shown none = codes "None"
shown (some e) = e

abbrev pub out_of_polls : Option Text → Exception
out_of_polls last = value_error (
    codes "Flex GetStatement did not return report after "
    ++ (decimal max_get_statement_polls ++ (codes " attempts. Last: " ++ shown last)))

-- What a poll comes to: a report, the reason to poll again, or an exception of another kind.
pub data Poll : Type 0 where
  ready : Text → Poll
  unready : Text → Poll
  stopped : Exception → Poll

abbrev pub next_poll : Poll → (Text → Result Text) → Result Text
next_poll (ready s) more = ok s
next_poll (unready why) more = more why
next_poll (stopped e) more = raise e

module _ (fromstring : Text → Parsed) where
  -- `_statement_not_ready`: `none` is a generated report.
  unfoldable pub statement_not_ready : Text → Option Text
  unfolding text_of or_text local_name
  statement_not_ready s = parsed_not_ready (fromstring s)

  abbrev judged : Text → Option Text → Poll
  judged s none = ready s
  judged s (some why) = unready why

  unfoldable pub poll_of : Reply → Poll
  unfolding statement_not_ready
  poll_of (broken e) = stopped e
  poll_of (refused e) = unready e
  poll_of (body s) = judged s (statement_not_ready s)

  -- The attempts from the i-th on, `left` of them.
  unfoldable pub poll_from : ℕ → ℕ → (ℕ → Reply) → Option Text → Result Text
  unfolding poll_of
  poll_from zero i answers last = raise (out_of_polls last)
  poll_from (suc left) i answers last =
      next_poll (poll_of (answers i)) (λ why. poll_from left (suc i) answers (some why))

  unfoldable pub get_statement : (ℕ → Reply) → Result Text
  unfolding poll_from
  get_statement answers = poll_from max_get_statement_polls 0 answers none
