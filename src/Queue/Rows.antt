-- ===== src/Queue/Rows.antt =====
-- Updates of rows: what holds of each row, and of each two rows, after an UPDATE.
use bifrost_platform_plugin.Common.{
  ◌≡◌, ◌≢◌, refl, sym, Bool, true, false, ◌&&◌, List, [], ◌∷◌, arith, All, All-map, All-at, Memᴰ,
  Bool-cases, inl, inr, if◌then◌else◌, not, filter, ap, ◌∙◌,
}
use bifrost_platform_plugin.Queue.{is_active, Job, clash, update_where}

-- R holds of each two members, the earlier one first.
abbrev pub Pairwise {ℓ} : {A : Type ℓ} → (A → A → Type 0) → List A → Type 0
Pairwise R [] = Unit
Pairwise R (x ∷ xs) = All (R x) xs × Pairwise R xs

-- Two rows that the primary key and the unique index allow side by side.
pub record Apart (j k : Job) : Type 0 where
  pub ids : j.id ≢ k.id
  pub keys : clash j k ≡ false

-- The row j' takes no more room in the indexes than j.
pub record Within (j' j : Job) : Type 0 where
  pub id : j'.id ≡ j.id
  pub kind : j'.kind ≡ j.kind
  pub hash : j'.payload_hash ≡ j.payload_hash
  pub active : is_active j'.status ≡ true → is_active j.status ≡ true

pub Within-refl : (j : Job) → Within j j
Within-refl j = record { id = refl; kind = refl; hash = refl; active = λ h. h }

and_mono :
    (a a' b b' c d : Bool)
    → (a' ≡ true → a ≡ true)
    → (b' ≡ true → b ≡ true)
    → (a && b && c && d) ≡ false
    → (a' && b' && c && d) ≡ false
and_mono a false b b' c d f g h = refl
and_mono a true b false c d f g h = refl
and_mono a true b true c d f g h = ground (arith, f refl, g refl)

clash-Within :
    (j k j' k' : Job) → clash j k ≡ false → Within j' j → Within k' k → clash j' k' ≡ false
unfolding clash
clash-Within j k j' k' h u v =
    rw (u.kind, v.kind, u.hash, v.hash) (and_mono _ _ _ _ _ _ u.active v.active h)

pub Apart-Within : {j k j' k' : Job} → Apart j k → Within j' j → Within k' k → Apart j' k'
Apart-Within {j} {k} {j'} {k'} a u v = record {
  ids = λ e. a.ids (cc (u.id, v.id));
  keys = clash-Within j k j' k' a.keys u v;
}

module _ (p : Job → Bool) (f : Job → Job) where
  -- The row that stands in the place of `j` after the update.
  updated : Job → Job
  updated j = if p j then f j else j

  updated-elim :
      (R : Job → Type 0) (j : Job) → (p j ≡ true → R (f j)) → (p j ≡ false → R j) → R (updated j)
  unfolding updated
  updated-elim R j hit miss = elim (Bool-cases (p j)) [
    | inl yes_p ↦ rw yes_p (hit yes_p)
    | inr no_p ↦ rw no_p (miss no_p)
  ]

  module _ {C : Job → Type 0} where
    pub update_where-All :
        {P : Job → Type 0}
        → ((j : Job) → C j → p j ≡ true → P (f j))
        → ((j : Job) → C j → p j ≡ false → P j)
        → (rows : List Job) → All C rows
        → All P (update_where p f rows)
    unfolding update_where updated
    update_where-All hit miss [] h = tt
    update_where-All {P} hit miss (j ∷ rows) h =
        (updated-elim P j (hit j h.0) (miss j h.0), update_where-All hit miss rows h.1)

    module _ (within : (j : Job) → C j → p j ≡ true → Within (f j) j) where
      updated-Within : (j : Job) → C j → Within (updated j) j
      updated-Within j c = updated-elim (λ k. Within k j) j (within j c) (λ _. Within-refl j)

      update-Apart :
          (j j' : Job)
          → Within j' j
          → (rows : List Job) → All C rows
          → All (Apart j) rows
          → All (Apart j') (update_where p f rows)
      unfolding update_where updated
      update-Apart j j' w [] c h = tt
      update-Apart j j' w (k ∷ rows) c h =
          (Apart-Within h.0 w (updated-Within k c.0), update-Apart j j' w rows c.1 h.1)

      -- An update that takes no new key keeps the rows apart.
      pub update_where-Apart :
          (rows : List Job)
          → All C rows
          → Pairwise Apart rows
          → Pairwise Apart (update_where p f rows)
      unfolding update_where updated
      update_where-Apart [] c h = tt
      update_where-Apart (j ∷ rows) c h = (
        update-Apart j (updated j) (updated-Within j c.0) rows c.1 h.0,
        update_where-Apart rows c.1 h.1,
      )

-- With the rows apart, a row is found by its id alone.
pub by_id :
    {j : Job} (rows : List Job)
    → Pairwise Apart rows
    → Memᴰ j rows
    → All (λ k. k.id ≡ j.id → k ≡ j) rows
by_id [] h m = elim m [ ]
by_id {j} (k ∷ rows) h (Memᴰ.head e) =
    (λ _. sym e, All-map (λ x a same. absurd (a.ids (cc (same, e)))) rows h.0)
by_id {j} (k ∷ rows) h (Memᴰ.tail m) =
    (λ same. absurd ((All-at (Apart k) h.0 m).ids same), by_id rows h.1 m)

-- The rows that a test lets through are as they were, when the update is of rows that fail it, and they
-- still do.
pub update_where-others :
    (p : Job → Bool) (f : Job → Job) (r : Job → Bool)
    → ((j : Job) → p j ≡ true → r j ≡ true)
    → ((j : Job) → r (f j) ≡ r j)
    → (rows : List Job)
    → filter (λ j. not (r j)) (update_where p f rows) ≡ filter (λ j. not (r j)) rows
unfolding update_where
update_where-others p f r only same [] = refl
update_where-others p f r only same (j ∷ rows) = elim (Bool-cases (p j)) [
  | inl hit ↦ rw (hit, same j, only j hit) (update_where-others p f r only same rows)
  | inr miss ↦ ground (arith, update_where-others p f r only same rows)
]

pub Memᴰ-update_where :
    (p : Job → Bool) (f : Job → Job) {j : Job} (rows : List Job)
    → Memᴰ j rows
    → p j ≡ true
    → Memᴰ (f j) (update_where p f rows)
unfolding update_where
Memᴰ-update_where p f [] m h = elim m [ ]
Memᴰ-update_where p f {j} (k ∷ rows) (Memᴰ.head e) h = Memᴰ.head (rw (ap p (sym e) ∙ h) (ap f e))
Memᴰ-update_where p f (k ∷ rows) (Memᴰ.tail m) h = Memᴰ.tail (Memᴰ-update_where p f rows m h)
