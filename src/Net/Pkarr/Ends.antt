-- ===== src/Net/Pkarr/Ends.antt =====
-- pkarr.rs: the turns of the loop that reads an announcement.
use peerline.Base.{
  ℕ, zero, suc, ◌≤◌, ◌≡◌, ◌≢◌, List, [], ◌∷◌, Option, Result, ok, err, ◌>>=◌, arith, Bool-cases,
  inl, inr, length, length-drop, drop, take, ltb,
}
use peerline.Base.Text.{Text, Bytes}
use peerline.Net.Pkarr.{
  AnnouncementRecord, PkarrError, PkarrLibrary, out_of_fuel, truncated_payload, decode_record,
  decode_records, decode, url_record,
}

module _ (lib : PkarrLibrary) where
  url_record_ends :
      (normalize : Text → Option Text) (kind : Text → AnnouncementRecord) (bytes : Bytes)
      → url_record lib normalize kind bytes ≢ err out_of_fuel
  url_record_ends normalize kind bytes e = ground (arith, e)

  decode_record_ends : (kind : ℕ) (bytes : Bytes) → decode_record lib kind bytes ≢ err out_of_fuel
  unfolding decode_record
  decode_record_ends kind bytes e = ground (arith, e)

  chain_ends :
      (r : Result PkarrError AnnouncementRecord) (rs : Result PkarrError (List AnnouncementRecord))
      → r ≢ err out_of_fuel
      → rs ≢ err out_of_fuel
      → (r >>= λ x. rs >>= λ xs. ok (x ∷ xs)) ≢ err out_of_fuel
  chain_ends (err e) rs h k same = h (cc)
  chain_ends (ok x) (err e) h k same = k (cc)
  chain_ends (ok x) (ok xs) h k same = cc

  decode_records_ends :
      (fuel : ℕ) (bytes : Bytes)
      → length bytes ≤ fuel
      → decode_records lib fuel bytes ≢ err out_of_fuel
  unfolding decode_records
  decode_records_ends zero [] enough e = cc
  decode_records_ends (suc fuel) [] enough e = cc
  decode_records_ends zero (kind ∷ rest) enough e = omega (arith, enough)
  decode_records_ends (suc fuel) (kind ∷ []) enough e = cc
  decode_records_ends (suc fuel) (kind ∷ len ∷ rest) enough e =
      elim (Bool-cases (ltb (length rest) len)) [
        | inl short ↦
            let e' : ◌≡◌ {A = Result PkarrError (List AnnouncementRecord)} (err truncated_payload)
                (err out_of_fuel) =
              rw short at e in
            cc
        | inr whole ↦
            chain_ends _ _ (decode_record_ends kind (take len rest))
              (decode_records_ends fuel (drop len rest)
                (omega (arith, enough, length-drop len rest)))
              (rw whole at e)
      ]

  -- The turns that the reader of an announcement gives its loop are enough: whatever the bytes, its result
  -- is not the error that stands for a loop cut short.
  pub decode-terminates : (payload : Bytes) → decode lib payload ≢ err out_of_fuel
  unfolding decode
  decode-terminates [] e = cc
  decode-terminates (version ∷ []) e = cc
  decode-terminates (version ∷ len ∷ rest) e = ground (
    arith,
    e,
    decode_records_ends (length rest) (drop len rest) (omega (arith, length-drop len rest)),
  )
