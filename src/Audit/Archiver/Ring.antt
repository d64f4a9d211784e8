-- ===== src/Audit/Archiver/Ring.antt =====
-- The audit collection is a ring of the newest records.
use linux_net_x.Base.{
  ℕ, zero, suc, ◌+◌, ◌-◌, ◌≤◌, ◌<◌, min, String, ◌≡◌, ◌≢◌, ◌∙◌, refl, sym, ap, subst, true, false,
  some, List, [], ◌∷◌, ◌++◌, leb, ◌||◌, arith, length, drop, length-drop, All, length-append, ◌⊎◌,
  inl, inr, Bool-cases,
}
use linux_net_x.Audit.Archiver.{
  Collection, delete_found, prune_counted, prune_collection_by_count, write_to_mongo,
}

module _ {ℓ} {A : Type ℓ} where
  pub drop-nil : (n : ℕ) → drop {A = A} n [] ≡ []
  drop-nil zero = refl
  drop-nil (suc n) = refl

  drop-append_le : (n : ℕ) (xs ys : List A) → n ≤ length xs → drop n (xs ++ ys) ≡ drop n xs ++ ys
  drop-append_le zero xs ys h = refl
  drop-append_le (suc n) [] ys h = absurd (omega arith)
  drop-append_le (suc n) (x ∷ xs) ys h = drop-append_le n xs ys (omega arith)

  drop-drop : (m n : ℕ) (xs : List A) → drop m (drop n xs) ≡ drop (n + m) xs
  drop-drop m zero xs = ap (λ k. drop k xs) (omega arith)
  drop-drop m (suc n) [] = drop-nil m ∙ sym (drop-nil (suc n + m))
  drop-drop m (suc n) (x ∷ xs) =
      drop-drop m n xs
      ∙ (let e : suc (n + m) ≡ suc n + m = omega arith in ap (λ k. drop k (x ∷ xs)) e)

  -- A drop of no more than there is.
  drop-least :
      (n : ℕ) (xs : List A)
      → (m : ℕ) × (m ≤ length xs)
        × (m ≤ n)
        × (length xs - m ≡ length xs - n)
        × (drop n xs ≡ drop m xs)
  drop-least zero xs = (0, omega arith, omega arith, refl, refl)
  drop-least (suc n) [] = (0, omega arith, omega arith, omega arith, refl)
  drop-least (suc n) (x ∷ xs) =
      let (m, a, b, c, e) = drop-least n xs in (suc m, omega arith, omega arith, omega arith, e)

All-drop {ℓ κ} : {A : Type ℓ} (P : A → Type κ) (n : ℕ) (xs : List A) → All P xs → All P (drop n xs)
All-drop P zero xs h = h
All-drop P (suc n) [] h = tt
All-drop P (suc n) (x ∷ xs) h = All-drop P n xs h.1

module _ {D : Type 0} (C : Collection D) (created_at : D → ℕ) (key : D → String) where
  -- A document that is newer than all of a list, and has a new key.
  abbrev pub IsNew : D → List D → Type 0
  IsNew d = All (λ e. (created_at e < created_at d) × (key e ≢ key d))

  -- A reachable server, as documented: it holds documents in the order of their times, takes a new
  -- one with a key that is not there, and deletes what it is told to. Its count is an estimate, which
  -- may be too high by `overcount` and too low by `undercount`. No document expires meanwhile.
  pub record Answers : Type 0 where
    pub overcount : ℕ
    pub undercount : ℕ
    pub by_age : C.Rows → List D
    pub inserts :
        (d : D) (r : C.Rows)
        → IsNew d (by_age r)
        → (r' : C.Rows) × (C.insert_one d r ≡ some r') × (by_age r' ≡ by_age r ++ d ∷ [])
    pub counts :
        (r : C.Rows)
        → (n : ℕ) × (C.estimated_document_count r ≡ some n)
          × (n ≤ length (by_age r) + overcount)
          × (length (by_age r) ≤ n + undercount)
    pub finds :
        (n : ℕ) (r : C.Rows)
        → (ids : List ℕ) × (C.find_oldest n r ≡ some ids) × (length ids ≡ min n (length (by_age r)))
    pub deletes :
        (n : ℕ) (r : C.Rows) (ids : List ℕ)
        → C.find_oldest n r ≡ some ids
        → (r' : C.Rows) × (C.delete_many ids r ≡ some r') × (by_age r' ≡ drop n (by_age r))

  module _ (A : Answers) (cap : ℕ) where
    open A use {overcount, undercount, by_age, inserts, counts, finds, deletes}

    delete-ids :
        (n : ℕ) (r : C.Rows) (ids : List ℕ)
        → C.find_oldest n r ≡ some ids
        → 0 < length ids
        → by_age (delete_found C (some ids) r) ≡ drop n (by_age r)
    unfolding delete_found
    delete-ids n r [] e l = absurd (omega arith)
    delete-ids n r (id ∷ ids) e l = let (r', f, g) = deletes n r (id ∷ ids) e in rw f g

    -- Whatever the ids are, the deletion of what was found leaves all but the oldest `n`.
    by_age-delete_found :
        (n : ℕ) (r : C.Rows)
        → 0 < n
        → 0 < length (by_age r)
        → by_age (delete_found C (C.find_oldest n r) r) ≡ drop n (by_age r)
    by_age-delete_found n r h k =
        let (ids, e, l) = finds n r in rw e (delete-ids n r ids e (omega arith))

    -- What a pruning removes of `held` documents: none, where they are few enough; or no more than
    -- leave the cap, less what the estimate was too high by, and enough of them or a whole batch.
    abbrev Removed : ℕ → ℕ → ℕ → Type 0
    Removed batch held j =
        ((j ≡ 0) × (held ≤ cap + undercount))
        ⊎ ((0 < j) × (cap + j ≤ held + overcount) × ((held ≤ cap + undercount + j) ⊎ (j ≡ batch)))

    batch_of :
        (batch n held : ℕ)
        → 0 < batch
        → cap < n
        → n ≤ held + overcount
        → held ≤ n + undercount
        → Removed batch held (min (n - cap) batch)
    batch_of batch n held b c h k = elim (Bool-cases (leb (n - cap) batch)) [
      | inl q ↦
          let e : min (n - cap) batch ≡ n - cap = ground arith in
          rw e (inr (omega arith, omega arith, inl (omega arith)))
      | inr q ↦
          let e : min (n - cap) batch ≡ batch = ground arith in
          let l : batch < n - cap = ground arith in rw e (inr (b, omega arith, inr refl))
    ]

    by_age-prune :
        (batch : ℕ) (r : C.Rows)
        → 0 < cap
        → 0 < batch
        → 0 < length (by_age r)
        → (j : ℕ) × (by_age (prune_collection_by_count C cap batch r) ≡ drop j (by_age r))
          × Removed batch (length (by_age r)) j
    unfolding prune_collection_by_count prune_counted
    by_age-prune batch r c b some_row =
        let (n, e, high, low) = counts r in
        let on : (leb cap 0 || leb batch 0) ≡ false = ground arith in
        rw on (
          rw e (elim (Bool-cases (leb n cap)) [
            | inl q ↦ let few : n ≤ cap = ground arith in rw q (0, refl, inl (refl, omega arith))
            | inr q ↦
                let many : cap < n = ground arith in
                rw q (
                  min (n - cap) batch,
                  by_age-delete_found (min (n - cap) batch) r (ground arith) some_row,
                  batch_of batch n (length (by_age r)) b many high low,
                )
          ]))

    -- All but `i` of `n` documents: no more than the cap and what an estimate is too low by, and
    -- either all of them, or as many as the cap less what an estimate is too high by.
    abbrev pub Held : ℕ → ℕ → Type 0
    Held i n = (n - i ≤ cap + undercount) × ((i ≡ 0) ⊎ (cap ≤ (n - i) + overcount))

    -- The rows are the documents of a list but for the oldest.
    abbrev pub Keeps : List D → C.Rows → Type 0
    Keeps past r = (i : ℕ) × (i ≤ length past) × (by_age r ≡ drop i past) × Held i (length past)

    Held-Removed :
        (i j m n : ℕ)
        → i ≤ n
        → Held i n
        → Removed 1000 (n + 1 - i) j
        → m ≤ i + j
        → n + 1 - m ≡ n + 1 - (i + j)
        → Held m (n + 1)
    Held-Removed i j m n l (up, inl z) (inl (none_gone, few)) h e = (omega arith, inl (omega arith))
    Held-Removed i j m n l (up, inr low) (inl (none_gone, few)) h e =
        (omega arith, inr (omega arith))
    Held-Removed i j m n l (up, low) (inr (gone, left, inl enough)) h e =
        (omega arith, inr (omega arith))
    Held-Removed i j m n l (up, low) (inr (gone, left, inr whole)) h e =
        (omega arith, inr (omega arith))

    -- One write.
    pub by_age-write_to_mongo :
        (d : D) (r : C.Rows) (past : List D)
        → 0 < cap
        → Keeps past r
        → IsNew d past
        → (r' : C.Rows) × (write_to_mongo C true cap d r ≡ some r') × Keeps (past ++ d ∷ []) r'
    unfolding write_to_mongo
    by_age-write_to_mongo d r past c (i, l, e, held) fresh =
        let (r', f, g) = inserts d r (rw e (All-drop _ i past fresh)) in
        let q : by_age r' ≡ drop i (past ++ d ∷ []) =
          g ∙ ap (λ l. l ++ d ∷ []) e ∙ sym (drop-append_le i past (d ∷ []) l) in
        let whole : length (past ++ d ∷ []) ≡ length past + 1 =
          omega (arith, length-append past (d ∷ [])) in
        let rows : length (by_age r') ≡ length past + 1 - i =
          omega (arith, ap length q, length-drop i (past ++ d ∷ []), whole) in
        let (j, p, removed) = by_age-prune 1000 r' c (omega arith) (omega arith) in
        let (m, a, b, same, k) = drop-least (i + j) (past ++ d ∷ []) in
        rw (f, write_to_mongo)
          (
            prune_collection_by_count C cap 1000 r',
            refl,
            (
              m,
              a,
              p ∙ ap (drop j) q ∙ drop-drop j i (past ++ d ∷ []) ∙ k,
              subst (Held m) (sym whole) (
                  Held-Removed i j m (length past) l held
                    (subst (λ x. Removed 1000 x j) rows removed) b (omega arith)),
            ),
          )
