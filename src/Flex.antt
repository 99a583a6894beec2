-- ===== src/Flex.antt =====
-- client/flex_client.py: the client of the Flex Web Service. ElementTree gives a tree of elements; its
-- parser is an argument (`fromstring`), as are the answers of the service and the zone of FLEX_LOCAL_TZ.
pub mod Statement
pub mod Request
pub mod Rows
pub mod Trades
pub mod Cash
pub mod Fetch
mod Tests
use bifrost_platform_plugin.Common.{
  ℕ, zero, suc, ◌+◌, Bool, true, false, ◌&&◌, not, Option, none, some, List, [], ◌∷◌, ◌++◌, ltb,
  leb, ◌==◌, if◌then◌else◌, any, map, length, take, String,
}
use bifrost_platform_plugin.Common.Text.{Text, codes, strip, text_eq, is_digit}
use bifrost_platform_plugin.Common.Result.{Exception, Result, ok, raise}
use bifrost_platform_plugin.Calendar.{Part, gap, lit, strptime, ymd, iso_day, clock_parts}

-- The attributes of an element, in the order of the document.
abbrev pub Attrs : Type 0
Attrs = List (Text × Text)

mutual
  -- tag, attrib, text and the children.
  pub data Element : Type 0 where
    element : Text → Attrs → Option Text → Elements → Element

  pub data Elements : Type 0 where
    nil : Elements
    cons : Element → Elements → Elements

abbrev pub tag : Element → Text
tag (element t attrs body children) = t

abbrev pub attrib : Element → Attrs
attrib (element t attrs body children) = attrs

abbrev body_of : Element → Text
body_of (element t attrs none children) = []
body_of (element t attrs (some s) children) = s

-- What fromstring makes of a text: a tree, or the message of the ParseError.
pub data Parsed : Type 0 where
  tree : Element → Parsed
  malformed : Text → Parsed

-- What urlopen makes of a request: the decoded body, the message of an HTTPError or a URLError, or
-- another exception.
pub data Reply : Type 0 where
  body : Text → Reply
  refused : Text → Reply
  broken : Exception → Reply

-- a or b, on texts
unfoldable pub or_text : Text → Text → Text
or_text [] b = b
or_text (c ∷ s) b = c ∷ s

-- d.get(k, "")
unfoldable pub get_attr : Attrs → String → Text
get_attr [] k = []
get_attr ((j, v) ∷ attrs) k = let rest = get_attr attrs k in if text_eq j (codes k) then v else rest

-- elem.get(k) or ""
abbrev pub attr : Element → String → Text
attr e k = get_attr (attrib e) k

unfoldable pub find_child : Elements → Text → Option Element
find_child nil t = none
find_child (cons (element u attrs s children) es) t =
    let rest = find_child es t in if text_eq u t then some (element u attrs s children) else rest

abbrev pub child : Element → Text → Option Element
child (element u attrs s children) t = find_child children t

abbrev text_or : Text → Text → Text
text_or [] default = default
text_or (c ∷ s) default = strip (c ∷ s)

abbrev found_text : Option Element → Text → Text
found_text none default = default
found_text (some e) default = text_or (body_of e) default

-- `_text`
unfoldable pub text_of : Element → String → Text → Text
unfolding find_child strip
text_of e name default = found_text (child e (codes name)) default

-- What stands behind the first closing brace, if there is one.
unfoldable pub after_brace : Text → Option Text
after_brace [] = none
after_brace (c ∷ s) = if c == b'}' then some s else after_brace s

-- `_local_name` and `strip_ns`
unfoldable pub local_name : Text → Text
unfolding after_brace
local_name t = elim (after_brace t) [ none ↦ t | some s ↦ s ]

unfoldable mutual
  -- iter(): the element and its descendants in the order of the document.
  pub iter : Element → List Element
  iter (element t attrs s children) = element t attrs s children ∷ iter_all children

  pub iter_all : Elements → List Element
  iter_all nil = []
  iter_all (cons e es) = iter e ++ iter_all es

abbrev pub is_named : String → Element → Bool
is_named name e = text_eq (local_name (tag e)) (codes name)

-- The account of a FlexStatement node.
abbrev statement_account : Element → Text
statement_account e = strip (
    or_text (attr e "accountId") (
      or_text (attr e "accountID") (or_text (text_of e "accountId" []) (text_of e "AccountId" []))))

-- The first FlexStatement whose account is not blank.
unfoldable pub first_account : List Element → Text
unfolding or_text get_attr text_of
first_account [] = []
first_account (e ∷ es) =
    let rest = first_account es in
    if is_named "FlexStatement" e then or_text (statement_account e) rest else rest

-- The report-level accountId: that of the first statement, or else of the root.
unfoldable pub report_account_id : Element → Text
unfolding first_account
report_account_id root =
    or_text (first_account (iter root))
      (strip (or_text (attr root "accountId") (attr root "accountID")))
