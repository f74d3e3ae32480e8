-- ===== src/Net/Pkarr/Reading.antt =====
-- pkarr.rs: the reading of an announcement that the program has written.
use peerline.Base.{
  ℕ, zero, suc, ◌+◌, ◌≤◌, ◌≡◌, refl, sym, subst, true, ◌∙◌, false, ◌&&◌, leb, List, [], ◌∷◌, ◌++◌,
  append_assoc, append-nil, map, some, Result, ok, err, arith, Bool-cases, inl, inr, length,
  length-append, ltb, is_empty, All,
}
use peerline.Base.Text.{Bytes}
use peerline.Net.Pkarr.{
  PkarrAnnouncement, AnnouncementRecord, PackedRecord, PkarrError, PkarrLibrary, peer_id_too_large,
  format_version, packed_bytes, has_room, include_records, included_payload, encode_with_budget,
  from_record, decode_record, decode_records, decode_after, decode,
}
use peerline.Net.Pkarr.Choice.{fitting, chosen, sort_records, map-sort_records, sort_records-All}
use peerline.Net.Pkarr.Record.{IsReadable, decode_record-from_record}
use peerline.Transfer.Frames.Wire.{take_front, drop_front}

module _ (lib : PkarrLibrary) where
  subst2 : {A B : Type 0} (P : A → B → Type 0) {a b : A} {x y : B} → a ≡ b → x ≡ y → P a x → P b y
  subst2 P {b} {x} e f h = subst (P b) f (subst (λ c. P c x) e h)

  -- What was added to a payload, and what it is read as.
  record Chosen (start end : Bytes × ℕ) (records : List AnnouncementRecord) : Type 0 where
    pub bytes : Bytes
    pub payload_is : end.0 ≡ start.0 ++ bytes
    pub count_is : end.1 ≡ start.1 + length records
    pub are_read : (fuel : ℕ) → length bytes ≤ fuel → decode_records lib fuel bytes ≡ ok records

  decode_nothing : (fuel : ℕ) → decode_records lib fuel [] ≡ ok []
  unfolding decode_records
  decode_nothing zero = refl
  decode_nothing (suc fuel) = refl

  decode_packed :
      (p : PackedRecord) (r : AnnouncementRecord) (bytes : Bytes) (rs : List AnnouncementRecord)
      (fuel : ℕ)
      → decode_record lib p.kind p.data_bytes ≡ ok r
      → decode_records lib fuel bytes ≡ ok rs
      → decode_records lib (suc fuel) (packed_bytes p ++ bytes) ≡ ok (r ∷ rs)
  unfolding decode_records
  decode_packed p r bytes rs fuel h k =
      rw (enough, take_front p.data_bytes bytes, drop_front p.data_bytes bytes, h, k) refl
    where
      enough : ltb (length (p.data_bytes ++ bytes)) (length p.data_bytes) ≡ false
      enough = ground (arith, length-append p.data_bytes bytes)

  packed_read :
      (p : PackedRecord) (r : AnnouncementRecord)
      → decode_record lib p.kind p.data_bytes ≡ ok r
      → (bytes : Bytes) (rs : List AnnouncementRecord)
      → ((fuel : ℕ) → length bytes ≤ fuel → decode_records lib fuel bytes ≡ ok rs)
      → (fuel : ℕ) → length (packed_bytes p ++ bytes) ≤ fuel
      → decode_records lib fuel (packed_bytes p ++ bytes) ≡ ok (r ∷ rs)
  packed_read p r reads bytes rs later zero enough = absurd (omega (arith, enough))
  packed_read p r reads bytes rs later (suc fuel) enough =
      decode_packed p r bytes rs fuel reads
        (later fuel (omega (arith, enough, length-append p.data_bytes bytes)))

  room_fits :
      (max_bytes : ℕ) (payload : Bytes) (p : PackedRecord)
      → has_room max_bytes payload p ≡ (
          leb (length p.data_bytes) 255 && leb (length payload + 2 + length p.data_bytes) max_bytes)
  unfolding has_room
  room_fits max_bytes payload p = ground arith

  packed_length :
      (payload : Bytes) (p : PackedRecord)
      → length (payload ++ packed_bytes p) ≡ length payload + 2 + length p.data_bytes
  packed_length payload p = omega (arith, length-append payload (packed_bytes p))

  module _ (max_bytes included : ℕ) (payload : Bytes) where
    include_records-room :
        (p : PackedRecord) (ps : List PackedRecord)
        → has_room max_bytes payload p ≡ true
        → include_records max_bytes (p ∷ ps) (payload, included)
          ≡ include_records max_bytes ps (payload ++ packed_bytes p, suc included)
    unfolding include_records
    include_records-room p ps room = rw room refl

    include_records-full :
        (p : PackedRecord) (ps : List PackedRecord)
        → has_room max_bytes payload p ≡ false
        → include_records max_bytes (p ∷ ps) (payload, included)
          ≡ include_records max_bytes ps (payload, included)
    unfolding include_records
    include_records-full p ps full = rw full refl

    fitting-room :
        (r : AnnouncementRecord) (rs : List AnnouncementRecord)
        → has_room max_bytes payload (from_record lib r) ≡ true
        → fitting lib max_bytes (length payload) (r ∷ rs)
          ≡ r ∷ fitting lib max_bytes (length (payload ++ packed_bytes (from_record lib r))) rs
    unfolding fitting
    fitting-room r rs room =
        rw
          (
            sym (room_fits max_bytes payload (from_record lib r)) ∙ room,
            packed_length payload (from_record lib r),
          )
          refl

    fitting-full :
        (r : AnnouncementRecord) (rs : List AnnouncementRecord)
        → has_room max_bytes payload (from_record lib r) ≡ false
        → fitting lib max_bytes (length payload) (r ∷ rs)
          ≡ fitting lib max_bytes (length payload) rs
    unfolding fitting
    fitting-full r rs full = rw (sym (room_fits max_bytes payload (from_record lib r)) ∙ full) refl

  include_records-Chosen :
      (max_bytes : ℕ) (rs : List AnnouncementRecord) (start : Bytes × ℕ)
      → All (IsReadable lib) rs
      → Chosen start
          (include_records max_bytes (map (from_record lib) rs) start)
          (fitting lib max_bytes (length start.0) rs)
  unfolding include_records fitting
  include_records-Chosen max_bytes [] start h = record {
    bytes = [];
    payload_is = sym (append-nil start.0);
    count_is = omega arith;
    are_read = λ fuel enough. decode_nothing fuel;
  }
  include_records-Chosen max_bytes (r ∷ rs) (payload, included) h =
      let p = from_record lib r in
      let ps = map (from_record lib) rs in
      elim (Bool-cases (has_room max_bytes payload p)) [
        | inr full ↦
            subst2 (Chosen (payload, included))
              (sym (include_records-full max_bytes included payload p ps full))
              (sym (fitting-full max_bytes included payload r rs full))
              (include_records-Chosen max_bytes rs (payload, included) h.1)
        | inl room ↦
            subst2 (Chosen (payload, included))
              (sym (include_records-room max_bytes included payload p ps room))
              (sym (fitting-room max_bytes included payload r rs room))
              (go
                (include_records-Chosen max_bytes rs (payload ++ packed_bytes p, suc included) h.1))
      ]
    where
      go :
          {end : Bytes × ℕ} {later : List AnnouncementRecord}
          → Chosen (payload ++ packed_bytes (from_record lib r), suc included) end later
          → Chosen (payload, included) end (r ∷ later)
      go {later} c = record {
        bytes = packed_bytes (from_record lib r) ++ c.bytes;
        payload_is = c.payload_is ∙ append_assoc payload (packed_bytes (from_record lib r)) c.bytes;
        count_is = omega (arith, c.count_is);
        are_read =
            packed_read (from_record lib r) r (decode_record-from_record lib r h.0) c.bytes later
              c.are_read;
      }

  not_empty : (rs : List AnnouncementRecord) (n : ℕ) → length rs ≡ suc n → is_empty rs ≡ false
  not_empty [] n e = absurd (omega (arith, e))
  not_empty (r ∷ rs) n e = refl

  included_payload-eq :
      (state : Bytes × ℕ) (payload : Bytes)
      → included_payload state ≡ ok payload
      → (state.0 ≡ payload) × (n : ℕ) × (state.1 ≡ suc n)
  included_payload-eq (bytes, zero) payload e = cc
  included_payload-eq (bytes, suc n) payload e = (ok-eq e, n, refl)
    where
      ok-eq : {xs ys : Bytes} → ◌≡◌ {A = Result PkarrError Bytes} (ok xs) (ok ys) → xs ≡ ys
      ok-eq e = cc

  decode_after-eq :
      (peer_id bytes : Bytes) (rs : List AnnouncementRecord)
      → lib.peer_id_from_bytes peer_id ≡ some peer_id
      → ((fuel : ℕ) → length bytes ≤ fuel → decode_records lib fuel bytes ≡ ok rs)
      → is_empty rs ≡ false
      → decode_after lib (length peer_id) (peer_id ++ bytes)
        ≡ ok (record { peer_id = peer_id; records = rs })
  decode_after-eq peer_id bytes rs known reads some_there =
      rw (enough, take_front peer_id bytes, known, drop_front peer_id bytes, read, some_there) refl
    where
      lengths : length (peer_id ++ bytes) ≡ length peer_id + length bytes
      lengths = length-append peer_id bytes

      enough : ltb (length (peer_id ++ bytes)) (length peer_id) ≡ false
      enough = ground (arith, lengths)

      read : decode_records lib (length (peer_id ++ bytes)) bytes ≡ ok rs
      read = reads (length (peer_id ++ bytes)) (omega (arith, lengths))

  -- An announcement that is encoded within a budget decodes to the same peer and exactly the records that
  -- were chosen. The peer identifier is read from its bytes, and so is each multiaddr; each URL is
  -- read from its UTF-8 and is in normal form.
  pub decode-encode_with_budget :
      (a : PkarrAnnouncement) (max_bytes : ℕ) (payload : Bytes)
      → lib.peer_id_from_bytes a.peer_id ≡ some a.peer_id
      → All (IsReadable lib) a.records
      → encode_with_budget lib a max_bytes ≡ ok payload
      → decode lib payload ≡ ok (record { peer_id = a.peer_id; records = chosen lib a max_bytes })
  unfolding encode_with_budget decode
  decode-encode_with_budget a max_bytes payload known readable e =
      elim (Bool-cases (ltb 255 (length a.peer_id))) [
        | inl large ↦ let e' : err peer_id_too_large ≡ ok payload = rw large at e in cc
        | inr small ↦
            let c =
              include_records-Chosen max_bytes (sort_records lib [] a.records)
                (format_version ∷ length a.peer_id ∷ a.peer_id, 0)
                (sort_records-All lib (IsReadable lib) [] a.records tt readable) in
            let (same, n, counted) =
              included_payload-eq _ payload
                (rw (small, sym (map-sort_records lib [] a.records)) at e) in
            let header : 2 + length a.peer_id ≡ suc (suc (length a.peer_id)) = omega arith in
            rw (header, sym same ∙ c.payload_is)
              (decode_after-eq a.peer_id c.bytes _ known c.are_read
                (not_empty _ n (omega (arith, c.count_is, counted))))
      ]
