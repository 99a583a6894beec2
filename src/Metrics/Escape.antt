-- ===== src/Metrics/Escape.antt =====
-- api/http_metrics.py: a label as a reader of the exposition format takes it in.
use bifrost_platform_plugin.Common.{
  ℕ, ◌≡◌, refl, Bool, true, false, Option, none, some, [], ◌∷◌, ◌++◌, map, arith, ◌==◌,
  if◌then◌else◌,
}
use bifrost_platform_plugin.Common.Text.{Text}
use bifrost_platform_plugin.Metrics.{replace_char, escape}

abbrev cons_value : ℕ → Option (Text × Text) → Option (Text × Text)
cons_value c none = none
cons_value c (some (v, rest)) = some (c ∷ v, rest)

-- The value in front of the closing quote, and what follows the quote. Behind a backslash an n is a
-- line end, and any other character stands for itself; a line end itself belongs to no value.
unfoldable pub read_value : Bool → Text → Option (Text × Text)
read_value quoted [] = none
read_value true (c ∷ s) = cons_value (if c == b'n' then 10 else c) (read_value false s)
read_value false (c ∷ s) =
    let escaped = read_value true s in
    let plain = cons_value c (read_value false s) in
    if c == 92 then escaped else if c == 34 then some ([], s) else if c == 10 then none else plain

-- A line end is shown as a space.
abbrev pub one_line : ℕ → ℕ
one_line c = if c == 10 then 32 else c

escape-cons :
    (c : ℕ) (v : Text)
    → escape (c ∷ v) ≡ (
        if c == 92
        then 92 ∷ 92 ∷ escape v
        else if c == 34
        then 92 ∷ 34 ∷ escape v
        else one_line c ∷ escape v)
unfolding escape replace_char
escape-cons c v = ground arith

escape-nil : escape [] ≡ []
unfolding escape replace_char
escape-nil = refl

-- What a label's value was is what a reader takes from its text, whatever characters it has and
-- whatever follows the closing quote; only its line ends have become spaces.
pub read_value-escape :
    (v rest : Text) → read_value false (escape v ++ (34 ∷ rest)) ≡ some (map one_line v, rest)
unfolding read_value
read_value-escape [] rest = rw escape-nil refl
read_value-escape (c ∷ v) rest = ground (arith, escape-cons c v, read_value-escape v rest)
