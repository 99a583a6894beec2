-- ===== src/Ingest/Cash/Fetched.antt =====
-- orchestration/transactions.py: the requests of a cash run that ended without an error.
use bifrost_platform_plugin.Common.{
  ℕ, ◌≡◌, refl, sym, ap, ◌∙◌, subst, ◌⊎◌, inl, inr, Bool, true, false, ◌&&◌, Option, none, some,
  List, [], ◌∷◌, ◌++◌, length, if◌then◌else◌, ◌==◌,
}
use mathlib.Core.List.{append_assoc, append-nil}
use bifrost_platform_plugin.Common.Text.{Text}
use bifrost_platform_plugin.Common.Result.{
  value_error, on_value_error-both, Result, ok, raise, >>=-eq-ok, ok-injective,
}
use bifrost_platform_plugin.Flex.Rows.{Row}
use bifrost_platform_plugin.Flex.Request.{is_given}
use bifrost_platform_plugin.Ingest.{Ask}
use bifrost_platform_plugin.Ingest.Fallback.{window_ask, default_ask}
use bifrost_platform_plugin.Ingest.Cash.{
  Query, Chunk, fetch_chunk, fetch_chunks, fetch_queries, after_request, after_own_period,
  chunk_error, with_chunk_error, labelled,
}

module _ {F : Type 0} (fetch : Query → Ask → Result (List (Row F))) where
  -- The rows are the answer to the window, or, where the fallback may be used, to the query's own period.
  abbrev pub ChunkAnswer : Query → Chunk → Bool → List (Row F) → Type 0
  ChunkAnswer q chunk allow_fallback rows =
      (fetch q (window_ask chunk.0 chunk.1) ≡ ok rows)
      ⊎ ((allow_fallback ≡ true) × (fetch q default_ask ≡ ok rows))

  -- Each chunk was answered, and `all` is the rows of all of them in order.
  abbrev pub ChunkAnswers : Query → Bool → List Chunk → List (Row F) → Type 0
  ChunkAnswers q allow_fallback [] all = all ≡ []
  ChunkAnswers q allow_fallback (chunk ∷ chunks) all =
      (rows : List (Row F)) × (rest : List (Row F)) × ChunkAnswer q chunk allow_fallback rows
      × (all ≡ rows ++ rest)
      × ChunkAnswers q allow_fallback chunks rest

  abbrev pub QueryAnswers : List Chunk → Bool → List Query → List (Row F) → Type 0
  QueryAnswers chunks allow_fallback [] all = all ≡ []
  QueryAnswers chunks allow_fallback (q ∷ qs) all =
      (rows : List (Row F)) × (rest : List (Row F)) × ChunkAnswers q allow_fallback chunks rows
      × (all ≡ rows ++ rest)
      × QueryAnswers chunks allow_fallback qs rest

  -- Every error has a message.
  abbrev pub Speaks : Type 0
  Speaks = (q : Query) (a : Ask) (m : Text) → fetch q a ≡ raise (value_error m) → is_given m ≡ true

  abbrev Fits : Query → Chunk → Bool → List (Row F) → Result (List (Row F) × Option Text) → Type 0
  Fits q chunk allow_fallback sink (raise e) = Unit
  Fits q chunk allow_fallback sink (ok (more, some m)) = is_given m ≡ true
  Fits q chunk allow_fallback sink (ok (more, none)) =
      (rows : List (Row F)) × (more ≡ sink ++ rows) × ChunkAnswer q chunk allow_fallback rows

  given-append : (s t : Text) → is_given s ≡ true → is_given (s ++ t) ≡ true
  given-append [] t h = cc
  given-append (c ∷ s) t h = refl

  after_own_period-Fits :
      (q : Query) (chunk : Chunk) (sink : List (Row F)) (m : Text) (r : Result (List (Row F)))
      → is_given m ≡ true
      → fetch q default_ask ≡ r
      → Fits q chunk true sink (after_own_period fetch sink m r)
  after_own_period-Fits q chunk sink m (ok rows) h at = (rows, refl, inr (refl, at))
  after_own_period-Fits q chunk sink m (raise x) h at =
      on_value_error-both (Fits q chunk true sink) x _ (raise x) (λ n eq. given-append m _ h) tt

  choose-Fits :
      (q : Query) (chunk : Chunk) (allow_fallback is_window : Bool) (sink : List (Row F)) (m : Text)
      → is_given m ≡ true
      → Fits q chunk allow_fallback sink (
          if allow_fallback && is_window
          then after_own_period fetch sink m (fetch q default_ask)
          else chunk_error fetch sink m)
  choose-Fits q chunk false is_window sink m h = h
  choose-Fits q chunk true false sink m h = h
  choose-Fits q chunk true true sink m h =
      after_own_period-Fits q chunk sink m (fetch q default_ask) h refl

  after_request-Fits :
      (q : Query) (chunk : Chunk) (allow_fallback : Bool) (sink : List (Row F))
      (r : Result (List (Row F)))
      → Speaks
      → fetch q (window_ask chunk.0 chunk.1) ≡ r
      → Fits q chunk allow_fallback sink (after_request fetch q chunk allow_fallback sink r)
  after_request-Fits q chunk allow_fallback sink (ok rows) speaks at = (rows, refl, inl at)
  after_request-Fits q chunk allow_fallback sink (raise x) speaks at =
      on_value_error-both (Fits q chunk allow_fallback sink) x _ (raise x)
        (λ m eq.
          choose-Fits q chunk allow_fallback _ sink m
            (speaks q (window_ask chunk.0 chunk.1) m (at ∙ ap raise eq)))
        tt

  snoc≢nil : {X : Type 0} (errors : List Text) (e : Text) → errors ++ (e ∷ []) ≡ [] → X
  snoc≢nil [] e h = cc
  snoc≢nil (x ∷ errors) e h = cc

  no_error :
      (q : Query) (chunk : Chunk) (allow_fallback : Bool) (sink more : List (Row F))
      (errors : List Text) (n : ℕ) (e : Option Text)
      → Fits q chunk allow_fallback sink (ok (more, e))
      → with_chunk_error fetch errors n chunk e ≡ []
      → (errors ≡ [])
        × ((rows : List (Row F)) × (more ≡ sink ++ rows) × ChunkAnswer q chunk allow_fallback rows)
  no_error q chunk allow_fallback sink more errors n none h k = (k, h)
  no_error q chunk allow_fallback sink more errors n (some []) h k = cc
  no_error q chunk allow_fallback sink more errors n (some (c ∷ m)) h k =
      snoc≢nil errors (labelled fetch n chunk (c ∷ m)) k

  fetch_chunks-answers :
      (q : Query) (n : ℕ) (allow_fallback : Bool) (chunks : List Chunk) (rows more : List (Row F))
      (errors final : List Text)
      → Speaks
      → fetch_chunks fetch q n allow_fallback chunks (rows, errors) ≡ ok (more, final)
      → final ≡ []
      → (errors ≡ [])
        × ((got : List (Row F)) × (more ≡ rows ++ got)
            × ChunkAnswers q (allow_fallback && (n == 1)) chunks got)
  unfolding fetch_chunks fetch_chunk
  fetch_chunks-answers q n allow_fallback [] rows more errors final speaks h quiet = (
    ap (λ p. p.1) (ok-injective h) ∙ quiet,
    ([], ap (λ p. p.0) (sym (ok-injective h)) ∙ sym (append-nil rows), refl),
  )
  fetch_chunks-answers q n allow_fallback (chunk ∷ chunks) rows more errors final speaks h quiet =
      let ((mid, e), first, h1) =
        >>=-eq-ok (fetch_chunk fetch q chunk (allow_fallback && (n == 1)) rows) _ h in
      let (calm, (got, split, answers)) =
        fetch_chunks-answers q n allow_fallback chunks mid more
          (with_chunk_error fetch errors n chunk e) final speaks h1 quiet in
      let fits =
        subst (Fits q chunk (allow_fallback && (n == 1)) rows) first
          (after_request-Fits q chunk (allow_fallback && (n == 1)) rows _ speaks refl) in
      let (none_before, (here, joined, answer)) =
        no_error q chunk (allow_fallback && (n == 1)) rows mid errors n e fits calm in
      (
        none_before,
        (
          here ++ got,
          split ∙ ap (λ s. s ++ got) joined ∙ append_assoc rows here got,
          (here, got, answer, refl, answers),
        ),
      )

  fetch_queries-answers :
      (chunks : List Chunk) (allow_fallback : Bool) (qs : List Query) (rows more : List (Row F))
      (errors final : List Text)
      → Speaks
      → fetch_queries fetch chunks allow_fallback qs (rows, errors) ≡ ok (more, final)
      → final ≡ []
      → (errors ≡ [])
        × ((got : List (Row F)) × (more ≡ rows ++ got)
            × QueryAnswers chunks (allow_fallback && (length chunks == 1)) qs got)
  unfolding fetch_queries
  fetch_queries-answers chunks allow_fallback [] rows more errors final speaks h quiet = (
    ap (λ p. p.1) (ok-injective h) ∙ quiet,
    ([], ap (λ p. p.0) (sym (ok-injective h)) ∙ sym (append-nil rows), refl),
  )
  fetch_queries-answers chunks allow_fallback (q ∷ qs) rows more errors final speaks h quiet =
      let ((mid, between), first, h1) =
        >>=-eq-ok (fetch_chunks fetch q (length chunks) allow_fallback chunks (rows, errors)) _ h in
      let (calm, (got, split, answers)) =
        fetch_queries-answers chunks allow_fallback qs mid more between final speaks h1 quiet in
      let (none_before, (here, joined, answer)) =
        fetch_chunks-answers q (length chunks) allow_fallback chunks rows mid errors between speaks
          first calm in
      (
        none_before,
        (
          here ++ got,
          split ∙ ap (λ s. s ++ got) joined ∙ append_assoc rows here got,
          (here, got, answer, refl, answers),
        ),
      )

  -- If every error has a message, and the requests of a cash run end without an error, then every chunk of
  -- every query was answered, and the rows are those of all the answers in order; the query's own period
  -- answers for a window only where the fallback is allowed and the window is a single request.
  pub fetch_queries-QueryAnswers :
      (chunks : List Chunk) (allow_fallback : Bool) (qs : List Query) (all : List (Row F))
      → Speaks
      → fetch_queries fetch chunks allow_fallback qs ([], []) ≡ ok (all, [])
      → QueryAnswers chunks (allow_fallback && (length chunks == 1)) qs all
  fetch_queries-QueryAnswers chunks allow_fallback qs all speaks h =
      let (calm, (got, split, answers)) =
        fetch_queries-answers chunks allow_fallback qs [] all [] [] speaks h refl in
      subst (QueryAnswers chunks (allow_fallback && (length chunks == 1)) qs) (sym split) answers
