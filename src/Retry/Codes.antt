-- ===== src/Retry/Codes.antt =====
-- worker/retry.py: what an IB code quoted anywhere in an error text decides.
use bifrost_platform_plugin.Common.{
  ℕ, zero, suc, ◌≤◌, ◌≡◌, refl, Bool, true, some, List, [], ◌∷◌, ◌++◌, arith, ◌==◌, any, length,
  ◌⊎◌, inl, inr, Option-cases, Bool-cases, ==_iff, ==_self,
}
use bifrost_platform_plugin.Common.Text.{Text, codes, is_digit}
use bifrost_platform_plugin.Retry.{
  not_ready, throttled, config, code_at, find_codes, flex_error_codes, four_digits, meets,
  classify_flex_error, throttled_codes, config_codes, not_ready_codes,
}

-- A bracket within the five places behind a match would have to be a digit or a closing bracket.
code_at-room :
    (c : ℕ) (pre rest : Text) {n : ℕ} → code_at (c ∷ (pre ++ b'[' ∷ rest)) ≡ some n → 5 ≤ length pre
unfolding code_at
code_at-room c [] (u ∷ v ∷ w ∷ x ∷ rest) h = ground arith
code_at-room c [] _ h = cc
code_at-room c (p ∷ []) (u ∷ v ∷ w ∷ rest) h = ground arith
code_at-room c (p ∷ []) _ h = cc
code_at-room c (p ∷ q ∷ []) (u ∷ v ∷ rest) h = ground arith
code_at-room c (p ∷ q ∷ []) _ h = cc
code_at-room c (p ∷ q ∷ r ∷ []) (u ∷ rest) h = ground arith
code_at-room c (p ∷ q ∷ r ∷ []) _ h = cc
code_at-room c (p ∷ q ∷ r ∷ s ∷ []) rest h = ground arith
code_at-room c (p ∷ q ∷ r ∷ s ∷ t ∷ pre) rest h = omega arith

abbrev pub quoted : ℕ → ℕ → ℕ → ℕ → Text → Text
quoted a b c d post = b'[' ∷ a ∷ b ∷ c ∷ d ∷ b']' ∷ post

abbrev pub Digits : ℕ → ℕ → ℕ → ℕ → Type 0
Digits a b c d =
    (is_digit a ≡ true) × (is_digit b ≡ true) × (is_digit c ≡ true) × (is_digit d ≡ true)

abbrev pub has : ℕ → List ℕ → Bool
has n found = any (λ m. m == n) found

found_later : (k n : ℕ) (found : List ℕ) → has k found ≡ true → has k (n ∷ found) ≡ true
found_later k n found h = ground arith

module _ (a b c d : ℕ) (ds : Digits a b c d) (post : Text) where
  code_at-quoted : code_at (quoted a b c d post) ≡ some (four_digits a b c d)
  unfolding code_at
  code_at-quoted = rw (ds.0, ds.1, ds.2, ds.3)

  room_behind :
      (x : ℕ) (pre : Text) (n : ℕ)
      → code_at (x ∷ (pre ++ quoted a b c d post)) ≡ some n
      → 5 ≤ length pre
  room_behind x pre n hit = code_at-room x pre _ hit

  -- The scan finds a quoted code wherever it stands, whatever the text in front of it.
  find_codes-quoted :
      (skip : ℕ) (pre : Text)
      → skip ≤ length pre
      → has (four_digits a b c d) (find_codes skip (pre ++ quoted a b c d post)) ≡ true
  unfolding find_codes
  find_codes-quoted zero [] room =
      rw (code_at-quoted, find_codes) (rw (==_self (four_digits a b c d)) refl)
  find_codes-quoted (suc skip) [] room = absurd (omega arith)
  find_codes-quoted (suc skip) (x ∷ pre) room = find_codes-quoted skip pre (omega arith)
  find_codes-quoted zero (x ∷ pre) room =
      elim (Option-cases (code_at (x ∷ (pre ++ quoted a b c d post)))) [
        | inl miss ↦ rw (miss, find_codes) (find_codes-quoted zero pre (omega arith))
        | inr (n, hit) ↦
            rw (hit, find_codes)
              (found_later _ n _ (find_codes-quoted 5 pre (room_behind x pre n hit)))
      ]

meets-has :
    (n : ℕ) (found members : List ℕ)
    → has n found ≡ true
    → has n members ≡ true
    → meets found members ≡ true
meets-has n [] members h m = cc
meets-has n (k ∷ found) members h m = elim (Bool-cases (k == n)) [
  | inl same ↦ let e = (==_iff k n).0 same in rw e (rw m refl)
  | inr other ↦ ground (arith, meets-has n found members, Bool-cases (has k members))
]

quoted-meets :
    (a b c d : ℕ) (ds : Digits a b c d) (members : List ℕ) (pre post : Text)
    → has (four_digits a b c d) members ≡ true
    → meets (flex_error_codes (pre ++ quoted a b c d post)) members ≡ true
unfolding flex_error_codes
quoted-meets a b c d ds members pre post m =
    meets-has (four_digits a b c d) _ members
      (find_codes-quoted a b c d ds post zero pre (omega arith)) m

-- An error text that quotes 1018 anywhere, whatever stands around it, is classified as throttled.
pub classify-throttled :
    (pre post : Text) → classify_flex_error (pre ++ (codes "[1018]" ++ post)) ≡ throttled
unfolding classify_flex_error is_digit
classify-throttled pre post =
    rw (quoted-meets b'1' b'0' b'1' b'8' (refl, refl, refl, refl) throttled_codes pre post refl)
      refl

-- An error text that quotes one of the configuration codes is given up on unless 1018 is there too:
-- it is classified as throttled or as a configuration error, never as worth another attempt.
pub classify-config :
    (a b c d : ℕ) (pre post : Text)
    → Digits a b c d
    → has (four_digits a b c d) config_codes ≡ true
    → (classify_flex_error (pre ++ quoted a b c d post) ≡ throttled)
      ⊎ (classify_flex_error (pre ++ quoted a b c d post) ≡ config)
unfolding classify_flex_error
classify-config a b c d pre post ds m =
    let met = quoted-meets a b c d ds config_codes pre post m in ground (arith, met)

-- An error text that quotes one of the not-ready codes is classified as throttled, as a
-- configuration error or as not ready: a transient or an unknown failure is never read into it.
pub classify-not_ready :
    (a b c d : ℕ) (pre post : Text)
    → Digits a b c d
    → has (four_digits a b c d) not_ready_codes ≡ true
    → (classify_flex_error (pre ++ quoted a b c d post) ≡ throttled)
      ⊎ (classify_flex_error (pre ++ quoted a b c d post) ≡ config)
      ⊎ (classify_flex_error (pre ++ quoted a b c d post) ≡ not_ready)
unfolding classify_flex_error
classify-not_ready a b c d pre post ds m =
    let met = quoted-meets a b c d ds not_ready_codes pre post m in ground (arith, met)
