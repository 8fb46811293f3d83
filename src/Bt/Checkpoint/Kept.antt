-- ===== src/Bt/Checkpoint/Kept.antt =====
-- That a checkpoint is read as it was written.
use godown.Base.{
  ◌≡◌, sym, subst, false, some, List, ◌∷◌, String, Dict, lookup, str_eq, arith, lookup-insert,
}
use godown.Base.Int.{ℤ}
use godown.Core.Task.{Task, StringMap, ProgressUpdate, read}
use godown.Core.Output.{ok, entries}
use godown.Core.Scheduler.Runs.{merge, merge_state, apply_update}
use godown.Bt.Files.{File, files_from_task}
use godown.Bt.Checkpoint.{
  Codec, RuntimeState, runtime_state_from_task, runtime_state_patch, int_state, reset_files,
  reset_state, cleared, reset_task,
}

-- What is written is read: integers and files.
pub record ReadsBack (codec : Codec) (files : List File) : Type 0 where
  pub ints : (n : ℤ) → codec.parse_int (codec.format_int n) ≡ some n
  pub file_list : codec.files.decode (codec.files.encode files) ≡ ok files
  pub filled : str_eq (codec.files.trim_space (codec.files.encode files)) "" ≡ false

abbrev pub in_digits : Codec → RuntimeState → RuntimeState
in_digits codec s = record s { share_ratio = codec.parse_ratio (codec.format_ratio s.share_ratio) }

-- What a map of strings holds of a checkpoint.
record Written (codec : Codec) (s : RuntimeState) (m : StringMap) : Type 0 where
  files : read "files" m ≡ codec.files.encode s.files
  uploaded_bytes : read "uploadedBytes" m ≡ codec.format_int s.uploaded_bytes
  seeding_seconds : read "seedingTimeSeconds" m ≡ codec.format_int s.seeding_seconds
  phase : read "phase" m ≡ s.phase
  peer_count : read "peerCount" m ≡ codec.format_int s.peer_count
  seed_count : read "seedCount" m ≡ codec.format_int s.seed_count
  download_rate : read "downloadRate" m ≡ codec.format_int s.download_rate
  upload_rate : read "uploadRate" m ≡ codec.format_int s.upload_rate
  share_ratio : read "shareRatioPercent" m ≡ codec.format_ratio s.share_ratio

read_found : (k v : String) (m : Dict String) → lookup k m ≡ some v → read k (some m) ≡ v
read_found k v m h = ground (arith, h)

module _ (codec : Codec) where
  merge-Written :
      (s : RuntimeState) (m : StringMap)
      → Written codec s (merge_state (runtime_state_patch codec s) m)
  unfolding merge_state merge runtime_state_patch
  merge-Written s m =
      let merged = merge (runtime_state_patch codec s) (entries m) in
      record {
        files = read_found "files" (codec.files.encode s.files) merged (simp lookup-insert);
        uploaded_bytes =
            read_found "uploadedBytes" (codec.format_int s.uploaded_bytes) merged
              (simp lookup-insert);
        seeding_seconds =
            read_found "seedingTimeSeconds" (codec.format_int s.seeding_seconds) merged
              (simp lookup-insert);
        phase = read_found "phase" s.phase merged (simp lookup-insert);
        peer_count =
            read_found "peerCount" (codec.format_int s.peer_count) merged (simp lookup-insert);
        seed_count =
            read_found "seedCount" (codec.format_int s.seed_count) merged (simp lookup-insert);
        download_rate =
            read_found "downloadRate" (codec.format_int s.download_rate) merged
              (simp lookup-insert);
        upload_rate =
            read_found "uploadRate" (codec.format_int s.upload_rate) merged (simp lookup-insert);
        share_ratio =
            read_found "shareRatioPercent" (codec.format_ratio s.share_ratio) merged
              (simp lookup-insert);
      }

  state_read_back :
      (s : RuntimeState) (t : Task) (f : File) (files : List File)
      → ReadsBack codec (f ∷ files)
      → s.files ≡ f ∷ files
      → Written codec s t.stage.state
      → runtime_state_from_task codec t ≡ ok (in_digits codec s)
  unfolding runtime_state_from_task int_state files_from_task
  state_read_back s t f files back some_files w = simp (
    w.files, w.uploaded_bytes, w.seeding_seconds, w.phase, w.peer_count, w.seed_count,
    w.download_rate, w.upload_rate, w.share_ratio, back.ints, back.file_list, back.filled,
    some_files,
  )

  -- Where a checkpoint is reported to the scheduler, and integers and files are read as they were
  -- written, the state that the next run takes from the task is the checkpoint, with its ratio cut
  -- to the digits that are written.
  pub checkpoint_kept :
      (s : RuntimeState) (u : ProgressUpdate) (t : Task) (f : File) (files : List File)
      → ReadsBack codec (f ∷ files)
      → s.files ≡ f ∷ files
      → u.stage_state ≡ runtime_state_patch codec s
      → runtime_state_from_task codec (apply_update u t) ≡ ok (in_digits codec s)
  unfolding apply_update
  checkpoint_kept s u t f files back some_files checkpoint =
      state_read_back s (apply_update u t) f files back some_files (
        subst (λ patch. Written codec s (merge_state patch t.stage.state)) (sym checkpoint)
          (merge-Written s t.stage.state))

  -- What a task that was reset has left of its transfer: the files, and which are selected.
  pub reset_kept :
      (s : RuntimeState) (t t' : Task) (f : File) (files : List File)
      → ReadsBack codec (f ∷ files)
      → runtime_state_from_task codec t ≡ ok s
      → reset_files s.files ≡ f ∷ files
      → reset_task codec t ≡ ok t'
      → runtime_state_from_task codec t' ≡ ok (in_digits codec (reset_state s))
  unfolding reset_task
  reset_kept s t t' f files back before some_files e =
      let outcome : cleared codec t (reset_state s) ≡ t' = ground (arith, before, e) in
      subst (λ x. runtime_state_from_task codec x ≡ ok (in_digits codec (reset_state s))) outcome
        (state_read_back (reset_state s) (cleared codec t (reset_state s)) f files back some_files
          (merge-Written (reset_state s) t.stage.state))
