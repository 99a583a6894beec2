-- ===== src/Flex/Statement/Polls.antt =====
-- client/flex_client.py: what GetStatement returns and raises.
use bifrost_platform_plugin.Common.{
  ℕ, zero, suc, ◌+◌, ◌<◌, ◌≡◌, refl, sym, ap, ◌∙◌, subst, true, Option, none, some, [], ◌∷◌, ◌++◌,
  arith, any, inl, inr, ◌⊎◌,
}
use mathlib.Core.List.{append_assoc}
use native.Mathlib.Nat.{add-zero}
use bifrost_platform_plugin.Common.Text.{Text, codes, decimal, contains, starts_with}
use bifrost_platform_plugin.Common.Result.{Exception, Result, ok, raise, message}
use bifrost_platform_plugin.Retry.{
  throttled, config, not_ready, classify_flex_error, four_digits, not_ready_codes,
}
use bifrost_platform_plugin.Retry.Codes.{Digits, has, quoted, classify-not_ready}
use bifrost_platform_plugin.Flex.{
  Element, Parsed, tree, malformed, Reply, body, refused, broken, text_of, or_text, iter, is_named,
}
use bifrost_platform_plugin.Flex.Statement.{
  max_get_statement_polls, Poll, ready, unready, stopped, statement_not_ready, poll_of, poll_from,
  get_statement, out_of_polls, next_poll, parsed_not_ready, tree_not_ready, unready_response,
  judged,
}

shift : (i j : ℕ) → i + suc j ≡ suc i + j
shift i j = omega arith

start : (j : ℕ) → j ≡ 0 + j
start j = omega arith

-- A tree that is a generated report: the answer to a query, with a statement in it.
pub record IsReport (root : Element) : Type 0 where
  pub answer : is_named "FlexQueryResponse" root ≡ true
  pub statement : any (is_named "FlexStatement") (iter root) ≡ true

next_poll-eq-ok :
    (p : Poll) (more : Text → Result Text) (s : Text)
    → next_poll p more ≡ ok s
    → (p ≡ ready s) ⊎ ((why : Text) × (more why ≡ ok s))
next_poll-eq-ok (ready t) more s h = inl (ground arith)
next_poll-eq-ok (unready why) more s h = inr (why, h)
next_poll-eq-ok (stopped e) more s h = cc

tree_not_ready-none : (root : Element) → tree_not_ready root ≡ none → IsReport root
tree_not_ready-none root h = record { answer = ground arith; statement = ground arith }

parsed_not_ready-none :
    (p : Parsed) → parsed_not_ready p ≡ none → (root : Element) × (p ≡ tree root) × IsReport root
parsed_not_ready-none (malformed e) h = cc
parsed_not_ready-none (tree root) h = (root, refl, tree_not_ready-none root h)

-- The tree says that the statement is not there, with the code of four digits as its reason.
pub record SaysCode (root : Element) (a b c d : ℕ) : Type 0 where
  pub response : is_named "FlexStatementResponse" root ≡ true
  pub code : text_of root "ErrorCode" [] ≡ a ∷ b ∷ c ∷ d ∷ []

-- What stands in front of the code in the message of the last poll, and behind it.
abbrev front_of : Element → Text
front_of root =
    codes "Flex GetStatement did not return report after "
    ++ (decimal max_get_statement_polls
        ++ (codes " attempts. Last: "
            ++ (or_text (text_of root "Status" []) (codes "no Status") ++ codes " ")))

abbrev back_of : Element → Text
back_of root = codes " " ++ or_text (text_of root "ErrorMessage" []) (codes "Report not ready")

message-quoted :
    (root : Element) (a b c d : ℕ)
    → SaysCode root a b c d
    → (why : Text) × (parsed_not_ready (tree root) ≡ some why)
      × (message (out_of_polls (some why)) ≡ front_of root ++ quoted a b c d (back_of root))
message-quoted root a b c d says =
    (unready_response root, rw (says.response) refl, rw (says.code) (simp append_assoc))

front-marked :
    (root : Element) (rest : Text)
    → contains (codes "did not return report") (front_of root ++ rest) ≡ true
unfolding contains starts_with
front-marked root rest = refl

module _ (fromstring : Text → Parsed) where
  judged-ready :
      (t : Text) (o : Option Text) (s : Text)
      → judged fromstring t o ≡ ready s
      → (o ≡ none) × (t ≡ s)
  judged-ready t none s h = (refl, ground arith)
  judged-ready t (some why) s h = cc

  poll_of-ready :
      (r : Reply) (s : Text)
      → poll_of fromstring r ≡ ready s
      → statement_not_ready fromstring s ≡ none
  unfolding poll_of
  poll_of-ready (broken e) s h = cc
  poll_of-ready (refused e) s h = cc
  poll_of-ready (body t) s h =
      let (found, same) = judged-ready t (statement_not_ready fromstring t) s h in
      subst (λ u. statement_not_ready fromstring u ≡ none) same found

  poll_of-unready :
      (s : Text) (root : Element) (why : Text)
      → fromstring s ≡ tree root
      → parsed_not_ready (tree root) ≡ some why
      → poll_of fromstring (body s) ≡ unready why
  unfolding poll_of statement_not_ready
  poll_of-unready s root why read reason =
      ap (λ p. judged fromstring s (parsed_not_ready p)) read ∙ ap (judged fromstring s) reason

  poll_from-ready :
      (left i : ℕ) (answers : ℕ → Reply) (last : Option Text) (s : Text)
      → poll_from fromstring left i answers last ≡ ok s
      → statement_not_ready fromstring s ≡ none
  unfolding poll_from
  poll_from-ready zero i answers last s h = cc
  poll_from-ready (suc left) i answers last s h =
      elim (next_poll-eq-ok (poll_of fromstring (answers i))
        (λ why. poll_from fromstring left (suc i) answers (some why)) s h) [
          | inl here ↦ poll_of-ready (answers i) s here
          | inr later ↦ poll_from-ready left (suc i) answers (some later.0) s later.1
        ]

  poll_from-at :
      (left i k : ℕ) (answers : ℕ → Reply) (last : Option Text) (s : Text)
      → k < left
      → ((j : ℕ) → j < k → (why : Text) × (poll_of fromstring (answers (i + j)) ≡ unready why))
      → poll_of fromstring (answers (i + k)) ≡ ready s
      → poll_from fromstring left i answers last ≡ ok s
  unfolding poll_from
  poll_from-at zero i k answers last s h down up = absurd (omega arith)
  poll_from-at (suc left) i zero answers last s h down up =
      rw (subst (λ n. poll_of fromstring (answers n) ≡ ready s) (add-zero i) up, poll_from) refl
  poll_from-at (suc left) i (suc k) answers last s h down up =
      let (why, now) = down 0 (omega arith) in
      rw (subst (λ n. poll_of fromstring (answers n) ≡ unready why) (add-zero i) now, poll_from)
        (poll_from-at left (suc i) k answers (some why) s (omega arith)
          (λ j lt.
            subst (λ n. (w : Text) × (poll_of fromstring (answers n) ≡ unready w)) (shift i j)
              (down (suc j) (omega arith)))
          (subst (λ n. poll_of fromstring (answers n) ≡ ready s) (shift i k) up))

  poll_from-last :
      (left i : ℕ) (answers : ℕ → Reply) (last : Option Text) (why : Text)
      → ((j : ℕ) → j < left → (w : Text) × (poll_of fromstring (answers (i + j)) ≡ unready w))
      → poll_of fromstring (answers (i + left)) ≡ unready why
      → poll_from fromstring (suc left) i answers last ≡ raise (out_of_polls (some why))
  unfolding poll_from
  poll_from-last zero i answers last why down up =
      rw (subst (λ n. poll_of fromstring (answers n) ≡ unready why) (add-zero i) up, poll_from) refl
  poll_from-last (suc left) i answers last why down up =
      let (w, now) = down 0 (omega arith) in
      rw (subst (λ n. poll_of fromstring (answers n) ≡ unready w) (add-zero i) now, poll_from)
        (poll_from-last left (suc i) answers (some w) why
          (λ j lt.
            subst (λ n. (v : Text) × (poll_of fromstring (answers n) ≡ unready v)) (shift i j)
              (down (suc j) (omega arith)))
          (subst (λ n. poll_of fromstring (answers n) ≡ unready why) (shift i left) up))

  -- The text that is returned is a generated report: a tree that answers a query and has a
  -- statement in it.
  pub get_statement-IsReport :
      (answers : ℕ → Reply) (s : Text)
      → get_statement fromstring answers ≡ ok s
      → (root : Element) × (fromstring s ≡ tree root) × IsReport root
  unfolding get_statement statement_not_ready
  get_statement-IsReport answers s h =
      parsed_not_ready-none (fromstring s) (poll_from-ready 24 0 answers none s h)

  -- If the first answers, up to 23 of them, are failed requests or not ready, and the next one is a
  -- report, then that report is returned.
  pub get_statement-waits :
      (k : ℕ) (answers : ℕ → Reply) (s : Text)
      → k < 24
      → ((j : ℕ) → j < k → (why : Text) × (poll_of fromstring (answers j) ≡ unready why))
      → poll_of fromstring (answers k) ≡ ready s
      → get_statement fromstring answers ≡ ok s
  unfolding get_statement
  get_statement-waits k answers s h down up =
      poll_from-at 24 0 k answers none s h
        (λ j lt.
          subst (λ n. (w : Text) × (poll_of fromstring (answers n) ≡ unready w)) (start j)
            (down j lt))
        (subst (λ n. poll_of fromstring (answers n) ≡ ready s) (start k) up)

  -- If the first 23 answers are failed requests or not ready, and the last one is a response that names
  -- one of the not-ready codes, then the error that is raised is classified as throttled, as a
  -- configuration error or as not ready, although its text holds the marker of a transient failure.
  pub get_statement-not_ready :
      (answers : ℕ → Reply) (s : Text) (root : Element) (a b c d : ℕ)
      → ((j : ℕ) → j < 23 → (why : Text) × (poll_of fromstring (answers j) ≡ unready why))
      → answers 23 ≡ body s
      → fromstring s ≡ tree root
      → SaysCode root a b c d
      → Digits a b c d
      → has (four_digits a b c d) not_ready_codes ≡ true
      → (e : Exception) × (get_statement fromstring answers ≡ raise e)
        × (contains (codes "did not return report") (message e) ≡ true)
        × ((classify_flex_error (message e) ≡ throttled)
            ⊎ (classify_flex_error (message e) ≡ config)
            ⊎ (classify_flex_error (message e) ≡ not_ready))
  unfolding get_statement poll_of statement_not_ready
  get_statement-not_ready answers s root a b c d down last read says ds m =
      let (why, reason, quotes) = message-quoted root a b c d says in
      (
        out_of_polls (some why),
        poll_from-last 23 0 answers none why
            (λ j lt.
              subst (λ n. (w : Text) × (poll_of fromstring (answers n) ≡ unready w)) (start j)
                (down j lt))
            (subst (λ r. poll_of fromstring r ≡ unready why) (sym last)
              (poll_of-unready s root why read reason)),
        rw quotes (front-marked root (quoted a b c d (back_of root))),
        rw quotes (classify-not_ready a b c d (front_of root) (back_of root) ds m),
      )
