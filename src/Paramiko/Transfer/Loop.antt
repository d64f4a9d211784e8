-- ===== src/Paramiko/Transfer/Loop.antt =====
-- The loop of a transfer: it ends, and what it has moved then.
use mathlib.Core.List.{append-nil, append_assoc}
use linux_net_x.Base.{
  ℕ, zero, suc, ◌+◌, ◌≤◌, ◌<◌, String, ◌≡◌, refl, sym, ap, subst, ◌∙◌, ◌⊎◌, inl, inr, Bool, true,
  false, Option, none, some, List, [], ◌∷◌, ◌++◌, take, drop, length, arith, Bool-cases,
  Option-cases, take-append-drop, length-drop, length-append, drop-append, IsPrefix, take-IsPrefix,
  append-IsPrefix, IsPrefix-trans,
}
use linux_net_x.Paramiko.Transfer.{
  Outcome, done, failed, link_lost, Report, File, content, copy, report,
}

module _ (Byte : Type 0) (md5 : List Byte → String) where
  -- The loop ends, and has moved a prefix of its source; all of it, if it ended by itself.
  pub record Copied (link : ℕ → Option ℕ) (source target : List Byte) (sent : ℕ)
      (r : Option (Bool × List Byte × ℕ)) : Type 0 where
    pub whole : Bool
    pub moved : List Byte
    pub count : ℕ
    pub ends : r ≡ some (whole, target ++ moved, count)
    pub prefix : IsPrefix moved source
    pub complete : whole ≡ true → (moved ≡ source) × (count ≡ sent + length source)
    pub steady : ((k : ℕ) → link k ≡ none) → whole ≡ true

  pub copy-Copied :
      (fuel : ℕ) (link : ℕ → Option ℕ) (size k : ℕ) (source target : List Byte) (sent : ℕ)
      → length source < fuel
      → Copied link source target sent (copy Byte md5 fuel link (suc size) k source target sent)
  unfolding copy
  copy-Copied zero link size k source target sent h = absurd (omega arith)
  copy-Copied (suc fuel) link size k [] target sent h = record {
    whole = true;
    moved = [];
    count = sent;
    ends = rw append-nil refl;
    prefix = ([], refl);
    complete = λ _. (refl, omega arith);
    steady = λ _. refl;
  }
  copy-Copied (suc fuel) link size k (b ∷ rest) target sent h = elim (Option-cases (link k)) [
    | inl e ↦ after e (
        copy-Copied fuel link size (k + 1) (drop size rest) (target ++ b ∷ take size rest)
          (sent + length (b ∷ take size rest)) (omega (arith, length-drop size rest)))
    | inr (p, e) ↦ record {
      whole = false;
      moved = take p (b ∷ take size rest);
      count = sent;
      ends = rw (e, copy) refl;
      prefix =
          IsPrefix-trans _ _ _ (take-IsPrefix p (b ∷ take size rest))
            (take-IsPrefix (suc size) (b ∷ rest));
      complete = λ q. cc;
      steady = λ q. cc (q k);
    }
  ]
    where
      after :
          link k ≡ none
          → Copied link
              (drop size rest)
              (target ++ b ∷ take size rest)
              (sent + length (b ∷ take size rest))
              (copy Byte md5 fuel link
                (suc size)
                (k + 1)
                (drop size rest)
                (target ++ b ∷ take size rest)
                (sent + length (b ∷ take size rest)))
          → Copied link
              (b ∷ rest)
              target
              sent
              (copy Byte md5 (suc fuel) link (suc size) k (b ∷ rest) target sent)
      after e c = record {
        whole = c.whole;
        moved = (b ∷ take size rest) ++ c.moved;
        count = c.count;
        ends =
            rw (e, copy)
              (c.ends
                ∙ ap (λ t. some (c.whole, t, c.count))
                    (append_assoc target (b ∷ take size rest) c.moved));
        prefix =
            subst (IsPrefix ((b ∷ take size rest) ++ c.moved))
              (ap (◌∷◌ b) (take-append-drop size rest))
              (append-IsPrefix (b ∷ take size rest) c.moved (drop size rest) c.prefix);
        complete = λ q.
            let (same, n) = c.complete q in
            (
              ap (λ l. (b ∷ take size rest) ++ l) same ∙ ap (◌∷◌ b) (take-append-drop size rest),
              omega (
                arith,
                n,
                ap length (take-append-drop size rest),
                length-append (take size rest) (drop size rest),
              ),
            );
        steady = c.steady;
      }

  -- A transfer that is done has the whole source at its target; one that is cut off has a prefix.
  abbrev pub Settled : List Byte → Outcome × File Byte md5 → Type 0
  Settled source r =
      ((rep : Report) × (r.0 ≡ done rep) × (r.1 ≡ some source))
      ⊎ ((r.0 ≡ failed link_lost) × IsPrefix (content Byte md5 r.1) source)

  pub report-Settled :
      (link : ℕ → Option ℕ) (part target source : List Byte) (sent total : ℕ) (resumed : Bool)
      (x : Option (Bool × List Byte × ℕ))
      → target ++ part ≡ source
      → Copied link part target sent x
      → Settled source (report Byte md5 total resumed x)
  unfolding report
  report-Settled link part target source sent total resumed x e c = elim (Bool-cases c.whole) [
    | inl q ↦
        let s : x ≡ some (true, source, c.count) =
          c.ends
          ∙ ap (λ (w : Bool). some (w, target ++ c.moved, c.count)) q
          ∙ ap (λ (t : List Byte). some (true, t, c.count))
              (ap (λ l. target ++ l) ((c.complete q).0) ∙ e) in
        rw s (
          inl (
            record {
              transferred_bytes = c.count;
              total_bytes = total;
              resumed = resumed;
              skipped = false;
            },
            refl,
            refl,
          ))
    | inr q ↦
        let s : x ≡ some (false, target ++ c.moved, c.count) =
          c.ends ∙ ap (λ (w : Bool). some (w, target ++ c.moved, c.count)) q in
        rw s (
          inr (
            refl,
            subst (IsPrefix (target ++ c.moved)) e (append-IsPrefix target c.moved part c.prefix),
          ))
  ]

  pub report-steady :
      (link : ℕ → Option ℕ) (part target source : List Byte) (sent total : ℕ) (resumed : Bool)
      (x : Option (Bool × List Byte × ℕ))
      → target ++ part ≡ source
      → ((k : ℕ) → link k ≡ none)
      → Copied link part target sent x
      → report Byte md5 total resumed x ≡ (
        done (record {
          transferred_bytes = sent + length part;
          total_bytes = total;
          resumed = resumed;
          skipped = false;
        }),
        some source,
      )
  unfolding report
  report-steady link part target source sent total resumed x e up c =
      let q : c.whole ≡ true = c.steady up in
      let (same, n) = c.complete q in
      let s : x ≡ some (true, source, sent + length part) =
        c.ends
        ∙ ap (λ (w : Bool). some (w, target ++ c.moved, c.count)) q
        ∙ ap (λ (t : List Byte). some (true, t, c.count)) (ap (λ l. target ++ l) same ∙ e)
        ∙ ap (λ (m : ℕ). some (true, source, m)) n in
      rw s refl

  -- A prefix that is not shorter is everything.
  pub prefix-eq : (p xs : List Byte) → IsPrefix p xs → length xs ≤ length p → p ≡ xs
  prefix-eq p xs ([], e) h = sym (append-nil p) ∙ e
  prefix-eq p xs (b ∷ rest, e) h = absurd (omega (arith, ap length e, length-append p (b ∷ rest)))

  pub prefix-drop : (p xs : List Byte) → IsPrefix p xs → p ++ drop (length p) xs ≡ xs
  prefix-drop p xs (rest, e) =
      subst (λ l. p ++ drop (length p) l ≡ l) e (ap (λ l. p ++ l) (drop-append p rest))
