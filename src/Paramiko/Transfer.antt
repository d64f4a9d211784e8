-- ===== src/Paramiko/Transfer.antt =====
-- `ParamikoDriver._upload_file` and `_download_file` (linux_net/plugins/drivers/paramiko/__init__.py)
-- for a single file. A file is `none` or its bytes. The connection is an argument: `link k` says
-- whether the k-th write succeeds (`none`), or fails after some bytes.
pub mod Loop
pub mod Laws
use linux_net_x.Base.{
  ℕ, zero, suc, ◌+◌, String, Bool, true, false, ◌&&◌, Option, none, some, List, [], ◌∷◌, ◌++◌, take,
  drop, length, ltb, leb, str_eq, if◌then◌else◌,
}

pub data Fault : Type 0 where
  file_not_found link_lost out_of_fuel : Fault

-- The entries of the returned dict that depend on the transfer.
pub record Report : Type 0 where
  pub transferred_bytes : ℕ
  pub total_bytes : ℕ
  pub resumed : Bool
  pub skipped : Bool

pub data Outcome : Type 0 where
  done : Report → Outcome
  failed : Fault → Outcome

-- `resume`, `sync_mode == "hash"`, `chunk_size`, and whether the device has `md5sum`.
pub record Options : Type 0 where
  pub resume : Bool
  pub hash_sync : Bool
  pub chunk_size : ℕ
  pub md5sum : Bool

module _ (Byte : Type 0) (md5 : List Byte → String) where
  abbrev pub File : Type 0
  File = Option (List Byte)

  abbrev pub content : File → List Byte
  content none = []
  content (some bytes) = bytes

  -- The `while True` loop: a chunk is read from the source and appended to the target, until a read
  -- is empty. The result says whether the loop ended by itself.
  unfoldable pub copy :
      ℕ → (ℕ → Option ℕ) → ℕ → ℕ → List Byte → List Byte → ℕ → Option (Bool × List Byte × ℕ)
  copy zero link size k source target sent = none
  copy (suc fuel) link size k source target sent = elim (take size source) [
    | [] ↦ some (true, target, sent)
    | b ∷ chunk ↦ elim (link k) [
      | none ↦
          copy fuel link size (k + 1) (drop size source) (target ++ b ∷ chunk)
            (sent + length (b ∷ chunk))
      | some partial ↦ some (false, target ++ take partial (b ∷ chunk), sent)
    ]
  ]

  -- What the loop's end is reported as, with the target then.
  unfoldable pub report : ℕ → Bool → Option (Bool × List Byte × ℕ) → Outcome × File
  report total resumed none = (failed out_of_fuel, none)
  report total resumed (some (true, target, sent)) = (
    done (record {
      transferred_bytes = sent;
      total_bytes = total;
      resumed = resumed;
      skipped = false;
    }),
    some target,
  )
  report total resumed (some (false, target, sent)) = (failed link_lost, some target)

  -- `_get_remote_md5` is `None` where the device has no `md5sum`.
  unfoldable pub same_md5 : Options → List Byte → List Byte → Bool
  same_md5 o a b = o.md5sum && str_eq (md5 a) (md5 b)

  abbrev pub skip_report : ℕ → Report
  skip_report total = record {
    transferred_bytes = 0;
    total_bytes = total;
    resumed = false;
    skipped = true;
  }

  abbrev pub whole_report : ℕ → Report
  whole_report total = record {
    transferred_bytes = total;
    total_bytes = total;
    resumed = false;
    skipped = false;
  }

  -- The transfer proper, which both methods have: `mode` is "ab" or "wb", and `start` is where
  -- `transferred_bytes` starts if the file is written anew.
  unfoldable pub move_bytes : Options → (ℕ → Option ℕ) → ℕ → List Byte → List Byte → Outcome × File
  unfolding copy report
  move_bytes o link start source old =
      let fuel = suc (length source) in
      let append = o.resume && ltb 0 (length old) in
      report (length source) append (
        if append
        then copy fuel link o.chunk_size 0 (drop (length old) source) old (length old)
        else copy fuel link o.chunk_size 0 source [] start)

  -- The target is there: it may have the content already, or be as long.
  unfoldable pub move_over : Options → (ℕ → Option ℕ) → ℕ → List Byte → List Byte → Outcome × File
  unfolding move_bytes same_md5
  move_over o link start source old =
      if o.hash_sync && same_md5 o source old
      then (done (skip_report (length source)), some old)
      else if o.resume && leb (length source) (length old)
      then (done (whole_report (length source)), some old)
      else move_bytes o link start source old

  -- `_upload_file`: the local file, and the remote one before and after. `transferred_bytes` starts
  -- at `remote_size`, which is that of the remote file also when it is written anew.
  unfoldable pub upload_file : Options → (ℕ → Option ℕ) → File → File → Outcome × File
  unfolding move_over move_bytes
  upload_file o link none remote = (failed file_not_found, remote)
  upload_file o link (some source) none = move_bytes o link 0 source []
  upload_file o link (some source) (some old) = move_over o link (length old) source old

  -- `_download_file`: the remote file, and the local one before and after. `local_size` is 0 unless
  -- the download resumes.
  unfoldable pub download_file : Options → (ℕ → Option ℕ) → File → File → Outcome × File
  unfolding move_over move_bytes
  download_file o link none target = (failed file_not_found, target)
  download_file o link (some source) none = move_bytes o link 0 source []
  download_file o link (some source) (some old) = move_over o link 0 source old
