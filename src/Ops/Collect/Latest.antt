-- ===== src/Ops/Collect/Latest.antt =====
-- api/ops.py and worker/catchup.py: the last job of a kind, by its id and by its time.
use bifrost_platform_plugin.Common.{
  ℕ, ◌≤◌, ◌≡◌, refl, sym, ap, subst, Option, none, some, List, [], ◌∷◌, All, All-map, All-at, Memᴰ,
  arith, ltb, max, Bool-cases, inl, inr,
}
use bifrost_platform_plugin.Common.Text.{Text, text_eq}
use bifrost_platform_plugin.Queue.{Job}
use bifrost_platform_plugin.Slots.{newest_of}
use bifrost_platform_plugin.Ops.Collect.{later_of, latest_of}

-- The last job of a kind stands in the table.
later_of-Memᴰ :
    (j : Job) (o : Option Job) (rows : List Job)
    → ((k : Job) → o ≡ some k → Memᴰ k rows)
    → Memᴰ (later_of j o) (j ∷ rows)
later_of-Memᴰ j none rows h = Memᴰ.head refl
later_of-Memᴰ j (some k) rows h = elim (Bool-cases (ltb j.id k.id)) [
  | inl behind ↦ rw behind (Memᴰ.tail (h k refl))
  | inr front ↦ rw front (Memᴰ.head refl)
]

pub latest_of-Memᴰ :
    (kind : Text) (rows : List Job) (j : Job) → latest_of kind rows ≡ some j → Memᴰ j rows
unfolding latest_of
latest_of-Memᴰ kind [] j h = cc
latest_of-Memᴰ kind (x ∷ rows) j h = elim (Bool-cases (text_eq x.kind kind)) [
  | inl same ↦
      let e : later_of x (latest_of kind rows) ≡ j = ground arith in
      subst (λ k. Memᴰ k (x ∷ rows)) e
        (later_of-Memᴰ x (latest_of kind rows) rows (latest_of-Memᴰ kind rows))
  | inr other ↦ Memᴰ.tail (latest_of-Memᴰ kind rows j (ground arith))
]

-- A row with a greater id was not created earlier.
abbrev pub InStep : Job → Job → Type 0
InStep j k = j.id ≤ k.id → j.created_at ≤ k.created_at

-- The rows were created in the order of their ids.
abbrev pub IsInStep : List Job → Type 0
IsInStep rows = All (λ j. All (λ k. InStep j k × InStep k j) rows) rows

abbrev pub created_of : Option Job → Option ℕ
created_of none = none
created_of (some j) = some j.created_at

later_of-created :
    (j : Job) (o : Option Job)
    → ((k : Job) → o ≡ some k → InStep j k × InStep k j)
    → some (later_of j o).created_at
      ≡ elim (created_of o) [ none ↦ some j.created_at | some t ↦ some (max j.created_at t) ]
later_of-created j none h = refl
later_of-created j (some k) h =
    let (up, down) = h k refl in
    elim (Bool-cases (ltb j.id k.id)) [
      | inl behind ↦ rw behind (ap some (omega (arith, up (ground arith))))
      | inr front ↦ rw front (ap some (omega (arith, down (ground arith))))
    ]

-- Where the rows were created in the order of their ids, the last job of a kind is the newest.
pub latest_of-newest :
    (kind : Text) (rows : List Job)
    → IsInStep rows
    → created_of (latest_of kind rows) ≡ newest_of kind rows
unfolding latest_of newest_of
latest_of-newest kind [] h = refl
latest_of-newest kind (j ∷ rows) h =
    let rest = latest_of-newest kind rows (All-map (λ k p. p.1) rows h.1) in
    elim (Bool-cases (text_eq j.kind kind)) [
      | inr other ↦ rw other rest
      | inl same ↦
          rw (same, sym rest)
            (later_of-created j (latest_of kind rows)
              λ k e. All-at (λ k. InStep j k × InStep k j) h.0.1 (latest_of-Memᴰ kind rows k e))
    ]
