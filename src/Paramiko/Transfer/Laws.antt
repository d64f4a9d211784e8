-- ===== src/Paramiko/Transfer/Laws.antt =====
-- What a transfer leaves at its target, whether or not the connection holds.
use mathlib.Core.List.{append-nil}
use linux_net_x.Base.{
  ℕ, suc, ◌+◌, ◌<◌, String, ◌≡◌, refl, sym, ap, subst, ◌∙◌, inl, inr, true, false, ◌&&◌, Option,
  none, some, List, [], drop, length, ltb, leb, eq_iff, arith, Bool-cases, length-drop, IsPrefix,
}
use linux_net_x.Paramiko.Transfer.Loop.{
  Copied, copy-Copied, Settled, report-Settled, report-steady, prefix-eq, prefix-drop,
}
use linux_net_x.Paramiko.Transfer.{
  Outcome, done, Report, Options, File, content, copy, report, same_md5, skip_report, whole_report,
  move_bytes, move_over, upload_file, download_file,
}

module _ (Byte : Type 0) (md5 : List Byte → String) where
  module _ (o : Options) (size : ℕ) (sized : o.chunk_size ≡ suc size) (link : ℕ → Option ℕ) where
    loop-Copied :
        (fuel : ℕ) (source target : List Byte) (sent : ℕ)
        → length source < fuel
        → Copied Byte md5 link source target sent
            (copy Byte md5 fuel link o.chunk_size 0 source target sent)
    loop-Copied fuel source target sent h =
        subst
          (λ n.
            Copied Byte md5 link source target sent
              (copy Byte md5 fuel link n 0 source target sent))
          (sym sized) (copy-Copied Byte md5 fuel link size 0 source target sent h)

    move_bytes-append :
        (start : ℕ) (source old : List Byte)
        → (o.resume && ltb 0 (length old)) ≡ true
        → move_bytes Byte md5 o link start source old
          ≡ report Byte md5 (length source) true (
              copy Byte md5
                (suc (length source))
                link
                o.chunk_size
                0
                (drop (length old) source)
                old
                (length old))
    unfolding move_bytes
    move_bytes-append start source old e = rw e refl

    move_bytes-anew :
        (start : ℕ) (source old : List Byte)
        → (o.resume && ltb 0 (length old)) ≡ false
        → move_bytes Byte md5 o link start source old
          ≡ report Byte md5
              (length source)
              false
              (copy Byte md5 (suc (length source)) link o.chunk_size 0 source [] start)
    unfolding move_bytes
    move_bytes-anew start source old e = rw e refl

    move_bytes-Settled :
        (start : ℕ) (source old : List Byte)
        → IsPrefix old source
        → Settled Byte md5 source (move_bytes Byte md5 o link start source old)
    move_bytes-Settled start source old p = elim (Bool-cases (o.resume && ltb 0 (length old))) [
      | inl e ↦ rw (move_bytes-append start source old e) (
          report-Settled Byte md5 link (drop (length old) source) old source (length old) _ _ _
            (prefix-drop Byte md5 old source p)
            (loop-Copied (suc (length source)) (drop (length old) source) old (length old)
              (omega (arith, length-drop (length old) source))))
      | inr e ↦ rw (move_bytes-anew start source old e) (
          report-Settled Byte md5 link source [] source start _ _ _ refl
            (loop-Copied (suc (length source)) source [] start (omega arith)))
    ]

    move_over-Settled :
        (start : ℕ) (source old : List Byte)
        → IsPrefix old source
        → (md5 source ≡ md5 old → source ≡ old)
        → Settled Byte md5 source (move_over Byte md5 o link start source old)
    unfolding move_over same_md5
    move_over-Settled start source old p distinct =
        elim (Bool-cases (o.hash_sync && same_md5 Byte md5 o source old)) [
          | inl e ↦
              let same : md5 source ≡ md5 old = ground (arith, eq_iff (md5 source) (md5 old)) in
              rw e (inl (skip_report Byte md5 (length source), refl, ap some (sym (distinct same))))
          | inr e ↦ rw e (elim (Bool-cases (o.resume && leb (length source) (length old))) [
            | inl f ↦ rw f (
                inl (
                  whole_report Byte md5 (length source),
                  refl,
                  ap some (prefix-eq Byte md5 old source p (ground arith)),
                ))
            | inr f ↦ rw f (move_bytes-Settled start source old p)
          ])
        ]

    -- With a chunk size above 0, an upload onto a prefix of its file, such as a cut-off upload
    -- leaves, is done with the whole file at the target, or is cut off with a prefix there; so is a
    -- download. This is for contents of which no two different ones that are compared have one MD5.
    pub transfer-Settled :
        (source : List Byte) (target : File Byte md5)
        → IsPrefix (content Byte md5 target) source
        → (md5 source ≡ md5 (content Byte md5 target) → source ≡ content Byte md5 target)
        → Settled Byte md5 source (upload_file Byte md5 o link (some source) target)
          × Settled Byte md5 source (download_file Byte md5 o link (some source) target)
    unfolding upload_file download_file
    transfer-Settled source none p distinct =
        (move_bytes-Settled 0 source [] p, move_bytes-Settled 0 source [] p)
    transfer-Settled source (some old) p distinct = (
      move_over-Settled (length old) source old p distinct,
      move_over-Settled 0 source old p distinct,
    )

    module _ (up : (k : ℕ) → link k ≡ none) where
      abbrev pub full_report : ℕ → ℕ → Report
      full_report sent total = record {
        transferred_bytes = sent;
        total_bytes = total;
        resumed = false;
        skipped = false;
      }

      move_bytes-full :
          (start : ℕ) (source old : List Byte)
          → o.resume ≡ false
          → move_bytes Byte md5 o link start source old
            ≡ (done (full_report (start + length source) (length source)), some source)
      move_bytes-full start source old full =
          let e : (o.resume && ltb 0 (length old)) ≡ false = rw full refl in
          move_bytes-anew start source old e
          ∙ report-steady Byte md5 link source [] source start _ _ _ refl up
              (loop-Copied (suc (length source)) source [] start (omega arith))

      move_over-full :
          (start : ℕ) (source old : List Byte)
          → o.resume ≡ false
          → o.hash_sync ≡ false
          → move_over Byte md5 o link start source old
            ≡ (done (full_report (start + length source) (length source)), some source)
      unfolding move_over
      move_over-full start source old full every =
          let e : move_over Byte md5 o link start source old
              ≡ move_bytes Byte md5 o link start source old =
            rw (every, full) refl in
          e ∙ move_bytes-full start source old full

      move_bytes-whole :
          (start : ℕ) (source old : List Byte)
          → IsPrefix old source
          → (move_bytes Byte md5 o link start source old).1 ≡ some source
      move_bytes-whole start source old p = elim (Bool-cases (o.resume && ltb 0 (length old))) [
        | inl e ↦
            ap (λ (r : Outcome × File Byte md5). r.1)
              (move_bytes-append start source old e
                ∙ report-steady Byte md5 link (drop (length old) source) old source (length old) _ _
                    _ (prefix-drop Byte md5 old source p) up
                    (loop-Copied (suc (length source)) (drop (length old) source) old (length old)
                      (omega (arith, length-drop (length old) source))))
        | inr e ↦
            ap (λ (r : Outcome × File Byte md5). r.1)
              (move_bytes-anew start source old e
                ∙ report-steady Byte md5 link source [] source start _ _ _ refl up
                    (loop-Copied (suc (length source)) source [] start (omega arith)))
      ]

      move_over-whole :
          (start : ℕ) (source old : List Byte)
          → IsPrefix old source
          → (md5 source ≡ md5 old → source ≡ old)
          → (move_over Byte md5 o link start source old).1 ≡ some source
      unfolding move_over same_md5
      move_over-whole start source old p distinct =
          elim (Bool-cases (o.hash_sync && same_md5 Byte md5 o source old)) [
            | inl e ↦
                let same : md5 source ≡ md5 old = ground (arith, eq_iff (md5 source) (md5 old)) in
                rw e (ap some (sym (distinct same)))
            | inr e ↦ rw e (elim (Bool-cases (o.resume && leb (length source) (length old))) [
              | inl f ↦ rw f (ap some (prefix-eq Byte md5 old source p (ground arith)))
              | inr f ↦ rw f (move_bytes-whole start source old p)
            ])
          ]

      upload_whole :
          (source : List Byte) (target : File Byte md5)
          → IsPrefix (content Byte md5 target) source
          → (md5 source ≡ md5 (content Byte md5 target) → source ≡ content Byte md5 target)
          → (upload_file Byte md5 o link (some source) target).1 ≡ some source
      unfolding upload_file
      upload_whole source none p distinct = move_bytes-whole 0 source [] p
      upload_whole source (some old) p distinct = move_over-whole (length old) source old p distinct

      -- In full mode, with a connection that holds and a chunk size above 0, a transfer replaces the
      -- target by the source whatever was there. A download reports the length of the source as the
      -- bytes transferred; an upload adds to it the length of the file that it has overwritten.
      pub transfer_full :
          (source : List Byte) (target : File Byte md5)
          → o.resume ≡ false
          → o.hash_sync ≡ false
          → (upload_file Byte md5 o link (some source) target ≡ (
            done (full_report (length (content Byte md5 target) + length source) (length source)),
            some source,
          ))
            × (download_file Byte md5 o link (some source) target
                ≡ (done (full_report (length source) (length source)), some source))
      unfolding upload_file download_file
      transfer_full source none full every =
          let e : 0 + length source ≡ length source = omega arith in
          (
            move_bytes-full 0 source [] full,
            move_bytes-full 0 source [] full
                ∙ ap (λ n. (done (full_report n (length source)), some source)) e,
          )
      transfer_full source (some old) full every =
          let e : 0 + length source ≡ length source = omega arith in
          (
            move_over-full (length old) source old full every,
            move_over-full 0 source old full every
                ∙ ap (λ n. (done (full_report n (length source)), some source)) e,
          )

  content-prefix :
      (source : List Byte) (r : Outcome × File Byte md5)
      → Settled Byte md5 source r
      → IsPrefix (content Byte md5 r.1) source
  content-prefix source r (inl (rep, e, f)) =
      subst (λ (g : File Byte md5). IsPrefix (content Byte md5 g) source) (sym f)
        ([], append-nil source)
  content-prefix source r (inr (e, p)) = p

  -- However an upload onto a prefix of its file ends, one more upload over a connection that holds
  -- completes the file, if the chunk size is above 0 and no other content has the source's MD5.
  pub upload_again :
      (o : Options) (size : ℕ) (first second : ℕ → Option ℕ) (source : List Byte)
      (target : File Byte md5)
      → o.chunk_size ≡ suc size
      → IsPrefix (content Byte md5 target) source
      → ((other : List Byte) → md5 source ≡ md5 other → source ≡ other)
      → ((k : ℕ) → second k ≡ none)
      → (upload_file Byte md5 o second
          (some source)
          (upload_file Byte md5 o first (some source) target).1).1
        ≡ some source
  upload_again o size first second source target sized p distinct up =
      let r = upload_file Byte md5 o first (some source) target in
      let settled =
        (transfer-Settled o size sized first source target p
          (distinct (content Byte md5 target))).0 in
      upload_whole o size sized second up source r.1 (content-prefix source r settled)
        (distinct (content Byte md5 r.1))

  abbrev empty_report : ℕ → ℕ → Report
  empty_report sent total = record {
    transferred_bytes = sent;
    total_bytes = total;
    resumed = false;
    skipped = false;
  }

  -- With a chunk size of 0, which the request model admits, an upload in full mode is reported as
  -- done and leaves an empty file.
  pub upload_of_empty_chunks :
      (o : Options) (link : ℕ → Option ℕ) (source : List Byte) (target : File Byte md5)
      → o.chunk_size ≡ 0
      → o.resume ≡ false
      → o.hash_sync ≡ false
      → (rep : Report) × (upload_file Byte md5 o link (some source) target ≡ (done rep, some []))
        × (rep.total_bytes ≡ length source)
  unfolding upload_file move_over move_bytes copy report
  upload_of_empty_chunks o link source none sized full every =
      (empty_report 0 (length source), rw (full, sized) refl, refl)
  upload_of_empty_chunks o link source (some old) sized full every =
      (empty_report (length old) (length source), rw (every, full) (rw sized refl), refl)
