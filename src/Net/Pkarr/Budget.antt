-- ===== src/Net/Pkarr/Budget.antt =====
-- pkarr.rs: the size of an announcement.
use peerline.Base.{
  ℕ, zero, suc, ◌≤◌, ◌≡◌, refl, ◌⊎◌, inl, inr, List, [], ◌∷◌, ok, err, arith, Bool-cases, length,
  length-append, ltb,
}
use peerline.Base.Text.{Bytes}
use peerline.Net.Pkarr.{
  PkarrAnnouncement, PackedRecord, peer_id_too_large, PkarrLibrary, packed_bytes, has_room,
  include_record, include_records, included_payload, encode_with_budget,
}

-- Nothing is included yet, or the payload keeps to the budget.
abbrev Fits : ℕ → Bytes × ℕ → Type 0
Fits max_bytes state = (state.1 ≡ 0) ⊎ (length state.0 ≤ max_bytes)

include_record-Fits :
    (max_bytes : ℕ) (r : PackedRecord) (state : Bytes × ℕ)
    → Fits max_bytes state
    → Fits max_bytes (include_record max_bytes r state)
unfolding has_room
include_record-Fits max_bytes r (payload, included) h =
    elim (Bool-cases (has_room max_bytes payload r)) [
      | inl room ↦ rw room (inr (ground (arith, room, length-append payload (packed_bytes r))))
      | inr full ↦ rw full h
    ]

include_records-Fits :
    (max_bytes : ℕ) (rs : List PackedRecord) (state : Bytes × ℕ)
    → Fits max_bytes state
    → Fits max_bytes (include_records max_bytes rs state)
unfolding include_records
include_records-Fits max_bytes [] state h = h
include_records-Fits max_bytes (r ∷ rs) state h =
    include_records-Fits max_bytes rs _ (include_record-Fits max_bytes r state h)

included_payload-le :
    (max_bytes : ℕ) (state : Bytes × ℕ) (payload : Bytes)
    → Fits max_bytes state
    → included_payload state ≡ ok payload
    → length payload ≤ max_bytes
included_payload-le max_bytes (bytes, zero) payload h e = cc
included_payload-le max_bytes (bytes, suc n) payload (inl none_yet) e =
    absurd (omega (arith, none_yet))
included_payload-le max_bytes (bytes, suc n) payload (inr fits) e = ground (arith, fits, e)

-- An announcement that is encoded has at most as many bytes as the budget.
pub length-encode_with_budget :
    (lib : PkarrLibrary) (a : PkarrAnnouncement) (max_bytes : ℕ) (payload : Bytes)
    → encode_with_budget lib a max_bytes ≡ ok payload
    → length payload ≤ max_bytes
unfolding encode_with_budget
length-encode_with_budget lib a max_bytes payload e =
    elim (Bool-cases (ltb 255 (length a.peer_id))) [
      | inl large ↦ let e' : err peer_id_too_large ≡ ok payload = rw large at e in cc
      | inr small ↦
          included_payload-le max_bytes _ payload (include_records-Fits max_bytes _ _ (inl refl))
            (rw small at e)
    ]
