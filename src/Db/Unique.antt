-- ===== src/Db/Unique.antt =====
-- The keys of the tables (internal/db/schema.go), and what keeps them unique.
use nft_okboy_fleet.Prelude.{
  ℕ, ◌+◌, ◌≤◌, ◌<◌, ◌≡◌, sym, ap, inl, inr, Bool, true, false, List, [], ◌∷◌, ◌++◌, arith,
  if◌then◌else◌, nat_discrete, Bool-discrete, Bool-cases, ℤ, pos, ℤ-discrete, pos_part, count, keep,
  Text, Text-discrete, count-append, count-map, count-keep_le, subst,
}
use nft_okboy_fleet.Db.{update}

module _ {A : Type 0} where
  -- Each key of the family is that of one row at most.
  abbrev pub Unique {κ} : {K : Type κ} → (K → A → Bool) → List A → Type κ
  Unique {K = K} key rows = (k : K) → count (key k) rows ≤ 1

  -- No row has an id beyond the last one given out.
  abbrev pub Below : (ℤ → A → Bool) → ℕ → List A → Type 0
  Below key last rows = (n : ℕ) → last < n → count (key (pos n)) rows ≡ 0

  module _ {κ} {K : Type κ} (key : K → A → Bool) where
    pub keep-Unique : (q : A → Bool) (rows : List A) → Unique key rows → Unique key (keep q rows)
    keep-Unique q rows unique k = omega (arith, count-keep_le (key k) q rows, unique k)

    pub update-Unique :
        (q : A → Bool) (f : A → A) (rows : List A)
        → ((k : K) (x : A) → key k (f x) ≡ key k x)
        → Unique key rows
        → Unique key (update q f rows)
    update-Unique q f rows same unique k =
        let changed =
          count-map (key k) (λ x. if q x then f x else x) rows (λ x. ground (arith, same k x)) in
        omega (arith, changed, unique k)

    -- A new row joins when its own key is free.
    pub append-Unique :
        (x : A) (rows : List A)
        → ((k : K) → key k x ≡ true → count (key k) rows ≡ 0)
        → Unique key rows
        → Unique key (rows ++ x ∷ [])
    append-Unique x rows free unique k =
        ground (arith, count-append (key k) rows (x ∷ []), free k, unique k)

  module _ (key : ℤ → A → Bool) where
    pub keep-Below :
        (q : A → Bool) (last : ℕ) (rows : List A)
        → Below key last rows
        → Below key last (keep q rows)
    keep-Below q last rows below n h = omega (arith, count-keep_le (key (pos n)) q rows, below n h)

    pub update-Below :
        (q : A → Bool) (f : A → A) (last : ℕ) (rows : List A)
        → ((k : ℤ) (x : A) → key k (f x) ≡ key k x)
        → Below key last rows
        → Below key last (update q f rows)
    update-Below q f last rows same below n h =
        let changed =
          count-map (key (pos n)) (λ x. if q x then f x else x) rows
            (λ x. ground (arith, same (pos n) x)) in
        omega (arith, changed, below n h)

    pub append-Below :
        (x : A) (last : ℕ) (rows : List A)
        → ((n : ℕ) → last + 1 < n → key (pos n) x ≡ false)
        → Below key last rows
        → Below key (last + 1) (rows ++ x ∷ [])
    append-Below x last rows other below n h =
        let old : count (key (pos n)) rows ≡ 0 = below n (omega (arith, h)) in
        ground (arith, count-append (key (pos n)) rows (x ∷ []), other n h, old)

-- A table with a name and an id that counts up: users, groups and nodes.
pub record Named {A : Type 0} (name : Text → A → Bool) (id : ℤ → A → Bool) (last : ℕ)
    (rows : List A) : Type 0 where
  pub names : Unique name rows
  pub ids : Unique id rows
  pub below : Below id last rows

module _ {A : Type 0} (name : Text → A → Bool) (id : ℤ → A → Bool) where
  pub keep-Named :
      (q : A → Bool) (last : ℕ) (rows : List A)
      → Named name id last rows
      → Named name id last (keep q rows)
  keep-Named q last rows v = record {
    names = keep-Unique name q rows v.names;
    ids = keep-Unique id q rows v.ids;
    below = keep-Below id q last rows v.below;
  }

  pub update-Named :
      (q : A → Bool) (f : A → A) (last : ℕ) (rows : List A)
      → ((n : Text) (x : A) → name n (f x) ≡ name n x)
      → ((i : ℤ) (x : A) → id i (f x) ≡ id i x)
      → Named name id last rows
      → Named name id last (update q f rows)
  update-Named q f last rows same_name same_id v = record {
    names = update-Unique name q f rows same_name v.names;
    ids = update-Unique id q f rows same_id v.ids;
    below = update-Below id q f last rows same_id v.below;
  }

  -- A row under the next id, whose name is free.
  pub append-Named :
      (x : A) (last : ℕ) (rows : List A)
      → ((n : Text) → name n x ≡ true → count (name n) rows ≡ 0)
      → ((i : ℤ) → id i x ≡ true → i ≡ pos (last + 1))
      → Named name id last rows
      → Named name id (last + 1) (rows ++ x ∷ [])
  append-Named x last rows free_name next_id v = record {
    names = append-Unique name x rows free_name v.names;
    ids =
        append-Unique id x rows
          (λ i h.
            subst (λ j. count (id j) rows ≡ 0) (sym (next_id i h))
              (v.below (last + 1) (omega arith)))
          v.ids;
    below =
        append-Below id x last rows
          (λ n h. elim (Bool-cases (id (pos n) x)) [
            | inl at ↦
                absurd (let same = ap pos_part (next_id (pos n) at) in omega (arith, h, same))
            | inr other ↦ other
          ])
          v.below;
  }
