-- ===== src/Resume/Tests.antt =====
-- A transfer of an archive of five bytes, of which three have arrived.
use peerline.Base.{◌≡◌, refl, ap, [], ◌∷◌, none, some, ok, arith, length, text_eq}
use peerline.Base.Text.{Bytes, codes}
use peerline.Core.Manifest.{TransferDescriptor, auto}
use peerline.Resume.{
  Disk, PartialDir, ResumeState, readable, metadata_of, metadata_matches, dir_or_empty, put_dir,
  resume_state, append_chunk, complete_partial, write_part,
}
use peerline.Resume.Sync.{InSync, resume_state-InSync, AppendOutcome, append_chunk-Outcome}
use peerline.Resume.Restart.{resume_state-continues, resume_state_after_crash}
use peerline.Resume.Transfer.{
  CompleteOutcome, complete_partial-Outcome, append_all, completed, resumed_transfer,
}

abbrev source : Bytes
source = 1 ∷ 2 ∷ []

abbrev archive : Bytes
archive = codes "abcde"

-- The hash of these tests is the text itself.
abbrev descriptor : TransferDescriptor
descriptor = record {
  source_id = source;
  resource_id = archive;
  archive_bytes = 5;
  logical_bytes = 4;
  files = 1;
  compression = auto;
}

abbrev three_in : PartialDir
three_in = record {
  part = some (codes "abc");
  metadata = some (readable (metadata_of descriptor 3 1000));
}

abbrev disk : Disk
disk s r = some three_in

abbrev session : ResumeState
session = record { source_id = source; resource_id = archive; offset = 3 }

session-InSync : InSync descriptor session disk
unfolding metadata_matches text_eq
session-InSync = record {
  source = refl;
  resource = refl;
  dir = three_in;
  there = refl;
  holds = record {
    held = refl;
    noted = metadata_of descriptor 3 1000;
    written = refl;
    matching = refl;
    counted = refl;
    bounded = omega arith;
  };
}

resume_state-InSync_example :
    InSync descriptor (resume_state 2000 descriptor disk).0 (resume_state 2000 descriptor disk).1
resume_state-InSync_example = resume_state-InSync 2000 descriptor disk

append_chunk-Outcome_example :
    AppendOutcome descriptor 2000
      (codes "de")
      session
      disk
      (append_chunk 2000 session descriptor (codes "de") disk)
append_chunk-Outcome_example =
    append_chunk-Outcome 2000 descriptor (codes "de") session disk session-InSync

resume_state-continues_example :
    ((resume_state 2000 descriptor disk).0 ≡ session)
    × ((resume_state 2000 descriptor disk).1 source archive ≡ some three_in)
unfolding session-InSync
resume_state-continues_example =
    resume_state-continues 2000 descriptor session disk session-InSync (omega arith) (omega arith)

resume_state_after_crash_example :
    let disk' = put_dir source archive (some (write_part three_in (codes "d"))) disk in
    ((resume_state 2000 descriptor disk').0.offset ≡ 0)
    × ((dir_or_empty ((resume_state 2000 descriptor disk').1 source archive)).part ≡ none)
unfolding session-InSync
resume_state_after_crash_example =
    resume_state_after_crash 2000 descriptor session disk (codes "d") session-InSync
      (λ e. absurd (omega (arith, ap length e))) (omega arith)

complete_partial-Outcome_example :
    CompleteOutcome
      (λ b. b)
      session
      descriptor
      disk
      (complete_partial (λ b. b) session descriptor disk)
complete_partial-Outcome_example = complete_partial-Outcome (λ b. b) session descriptor disk

resumed_transfer_example :
    completed
      (λ b. b)
      descriptor
      (append_all 2000 descriptor (codes "d" ∷ codes "e" ∷ []) session disk)
    ≡ ok archive
resumed_transfer_example =
    resumed_transfer (λ b. b) 2000 descriptor archive (codes "d" ∷ codes "e" ∷ []) session disk
      session-InSync refl refl (omega arith) (omega arith) refl
