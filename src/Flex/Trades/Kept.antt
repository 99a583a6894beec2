-- ===== src/Flex/Trades/Kept.antt =====
-- client/flex_client.py: what parse_trades_xml keeps of a report.
use bifrost_platform_plugin.Common.{
  ℕ, ◌≡◌, refl, sym, ap, ◌∙◌, subst, Bool, true, false, not, Option, List, [], ◌∷◌, filter, map,
  Memᴰ, All, ◌⊎◌, ◌&&◌, if◌then◌else◌, arith, eq_iff, str_eq, String, Bool-cases, inl, inr,
}
use bifrost_platform_plugin.Common.Text.{Text, codes, strip, contains}
use bifrost_platform_plugin.Common.Result.{Exception, ok, raise, ok-injective}
use bifrost_platform_plugin.Flex.{
  Attrs, Element, Parsed, tree, attrib, is_named, iter, report_account_id, get_attr,
}
use bifrost_platform_plugin.Flex.Rows.{Value, attributes, Row, get_field, put_field}
use bifrost_platform_plugin.Flex.Trades.{
  stripped, extra_of, is_known, with_extra, with_currency, trade_row, account_at, time_at,
  is_nobody, trade_rows, checked_rows, read_trades, parse_trades_xml,
}

module _ {F : Type 0} where
  get_field-put_field :
      (row : Row F) (k j : String) (v : Value F)
      → get_field (put_field row k v) j ≡ (if str_eq k j then v else get_field row j)
  unfolding get_field put_field
  get_field-put_field [] k j v = refl
  get_field-put_field ((i, w) ∷ row) k j v =
      ground (arith, eq_iff k j, eq_iff i k, eq_iff i j, get_field-put_field row k j v)

mem-filter :
    {A : Type 0} (p : A → Bool) (a : A) (xs : List A)
    → p a ≡ true
    → Memᴰ a xs
    → Memᴰ a (filter p xs)
mem-filter p a [] h m = elim m [ ]
mem-filter p a (x ∷ xs) h (Memᴰ.head e) =
    subst (λ b. Memᴰ a (if b then x ∷ filter p xs else filter p xs)) (sym (ap p (sym e) ∙ h))
      (Memᴰ.head e)
mem-filter p a (x ∷ xs) h (Memᴰ.tail m) = elim (Bool-cases (p x)) [
  | inl keep ↦ rw keep (Memᴰ.tail (mem-filter p a xs h m))
  | inr skip ↦ rw skip (mem-filter p a xs h m)
]

mem-stripped : (k v : Text) (attrs : Attrs) → Memᴰ (k, v) attrs → Memᴰ (k, strip v) (stripped attrs)
mem-stripped k v [] m = elim m [ ]
mem-stripped k v (kv ∷ attrs) (Memᴰ.head e) = Memᴰ.head (ap (λ p. (p.0, strip p.1)) e)
mem-stripped k v (kv ∷ attrs) (Memᴰ.tail m) = Memᴰ.tail (mem-stripped k v attrs m)

All-of-mem : {A : Type 0} (P : A → Type 0) (xs : List A) → ((x : A) → Memᴰ x xs → P x) → All P xs
All-of-mem P [] h = tt
All-of-mem P (x ∷ xs) h = (h x (Memᴰ.head refl), All-of-mem P xs (λ y m. h y (Memᴰ.tail m)))

raised_if :
    {X : Type 0} (b : Bool) (e : Exception) (x y : X)
    → (if b then raise e else ok x) ≡ ok y
    → (b ≡ false) × (y ≡ x)
raised_if true e x y h = cc
raised_if false e x y h = (refl, sym (ok-injective h))

-- The attribute with its value stripped is among the extra ones.
extra_of-mem :
    (k v : Text) (attrs : Attrs)
    → is_known k ≡ false
    → Memᴰ (k, v) attrs
    → Memᴰ (k, strip v) (extra_of (stripped attrs))
extra_of-mem k v attrs h m =
    mem-filter (λ kv. not (is_known kv.0)) (k, strip v) (stripped attrs) (ap not h)
      (mem-stripped k v attrs m)

module _ {F : Type 0} (float_of : Text → Option F) (show_float : F → Text)
    (local_to_utc : ℕ → ℕ) where
  -- The row holds the attribute among its extra ones.
  abbrev pub Holds : Row F → Text → Text → Type 0
  Holds r k v = (extra : Attrs) × (get_field r "raw_extra" ≡ attributes extra) × Memᴰ (k, v) extra

  with_currency-other :
      (c : Text) (row : Row F)
      → get_field (with_currency float_of show_float local_to_utc c row) "raw_extra"
        ≡ get_field row "raw_extra"
  with_currency-other [] row = refl
  with_currency-other (d ∷ c) row = get_field-put_field row "currency" "raw_extra" _

  with_extra-Holds :
      (extra : Attrs) (row : Row F) (k v : Text)
      → Memᴰ (k, v) extra
      → get_field (with_extra float_of show_float local_to_utc extra row) "raw_extra"
        ≡ attributes extra
  with_extra-Holds [] row k v m = elim m [ ]
  with_extra-Holds (kv ∷ extra) row k v m = get_field-put_field row "raw_extra" "raw_extra" _

  trade_row-Holds :
      (report : Text) (attrs : Attrs) (k v : Text)
      → is_known k ≡ false
      → Memᴰ (k, v) attrs
      → Holds (trade_row float_of show_float local_to_utc report (stripped attrs)) k (strip v)
  unfolding trade_row
  trade_row-Holds report attrs k v h m =
      let there = extra_of-mem k v attrs h m in
      (
        extra_of (stripped attrs),
        with_currency-other (get_attr (stripped attrs) "ibCommissionCurrency") _
            ∙ with_extra-Holds (extra_of (stripped attrs)) _ k (strip v) there,
        there,
      )

  abbrev pub is_anonymous : Text → Element → Bool
  is_anonymous report e =
      is_nobody float_of show_float local_to_utc
        (account_at float_of show_float local_to_utc report (stripped (attrib e)))
        (time_at float_of show_float local_to_utc (stripped (attrib e)))

  abbrev pub is_trade : Text → Element → Bool
  is_trade report e = is_named "Trade" e && not (is_anonymous report e)

  abbrev pub row_of : Text → Element → Row F
  row_of report e = trade_row float_of show_float local_to_utc report (stripped (attrib e))

  -- The row holds the attribute, stripped, unless that has a field of its own.
  abbrev pub IsHeld : Row F → Text × Text → Type 0
  IsHeld r kv = (is_known kv.0 ≡ true) ⊎ Holds r kv.0 (strip kv.1)

  -- The rows are those of the trades among the elements, one each and in their order, and the row of a
  -- trade holds each of its attributes that has no field of its own.
  pub record Kept (report : Text) (es : List Element) (rows : List (Row F)) : Type 0 where
    pub exactly : rows ≡ map (row_of report) (filter (is_trade report) es)
    pub extras : All (λ e. All (IsHeld (row_of report e)) (attrib e)) es

  trade_rows-exactly :
      (report : Text) (es : List Element)
      → trade_rows float_of show_float local_to_utc report es
        ≡ map (row_of report) (filter (is_trade report) es)
  unfolding trade_rows
  trade_rows-exactly report [] = refl
  trade_rows-exactly report (e ∷ es) = elim (Bool-cases (is_named "Trade" e)) [
    | inr other ↦ rw other (trade_rows-exactly report es)
    | inl named ↦ elim (Bool-cases (is_anonymous report e)) [
      | inl nobody ↦ rw (named, nobody) (trade_rows-exactly report es)
      | inr known ↦
          rw (named, known) (ap (λ rows. row_of report e ∷ rows) (trade_rows-exactly report es))
    ]
  ]

  held :
      (report : Text) (attrs : Attrs)
      → All (IsHeld (trade_row float_of show_float local_to_utc report (stripped attrs))) attrs
  held report attrs = All-of-mem _ attrs λ kv there. elim (Bool-cases (is_known kv.0)) [
    | inl field ↦ inl field
    | inr extra ↦ inr (trade_row-Holds report attrs kv.0 kv.1 extra there)
  ]

  checked_rows-ok :
      (s : Text) (rows got : List (Row F))
      → checked_rows float_of show_float local_to_utc s rows ≡ ok got
      → got ≡ rows
  checked_rows-ok s [] got h = (raised_if (contains (codes "CashTransaction") s) _ [] got h).1
  checked_rows-ok s (r ∷ rows) got h = sym (ok-injective h)

  -- If a report is read as trades, then the result has one row for each Trade element in it that has an
  -- account or a time, in the order of the document and without any other row: the row that trade_row
  -- makes of its stripped attributes, in which each attribute without a field of its own stands in
  -- raw_extra, stripped.
  pub parse_trades_xml-Kept :
      (fromstring : Text → Parsed) (s : Text) (root : Element) (rows : List (Row F))
      → fromstring s ≡ tree root
      → parse_trades_xml float_of show_float local_to_utc fromstring s ≡ ok rows
      → Kept (report_account_id root) (iter root) rows
  unfolding parse_trades_xml
  parse_trades_xml-Kept fromstring s root rows read h =
      let given = ap (read_trades float_of show_float local_to_utc s) (sym read) ∙ h in
      record {
        exactly =
            checked_rows-ok s _ rows given
            ∙ trade_rows-exactly (report_account_id root) (iter root);
        extras = All-of-mem _ (iter root) λ e _. held (report_account_id root) (attrib e);
      }

  checked_rows-nil :
      (s : Text) (rows : List (Row F))
      → checked_rows float_of show_float local_to_utc s rows ≡ ok []
      → contains (codes "CashTransaction") s ≡ false
  checked_rows-nil s [] h = (raised_if (contains (codes "CashTransaction") s) _ [] [] h).0
  checked_rows-nil s (r ∷ rows) h = absurd (cc (ok-injective h))

  -- If a report is well-formed and read as trades with no rows, then it does not speak of cash transactions:
  -- a report of the wrong kind raises.
  parse_trades_xml-nil :
      (fromstring : Text → Parsed) (s : Text) (root : Element)
      → fromstring s ≡ tree root
      → parse_trades_xml float_of show_float local_to_utc fromstring s ≡ ok []
      → contains (codes "CashTransaction") s ≡ false
  unfolding parse_trades_xml
  parse_trades_xml-nil fromstring s root read h =
      checked_rows-nil s _ (ap (read_trades float_of show_float local_to_utc s) (sym read) ∙ h)
