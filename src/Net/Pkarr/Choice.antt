-- ===== src/Net/Pkarr/Choice.antt =====
-- pkarr.rs: which records of an announcement `encode_with_budget` packs, and in which order.
use peerline.Base.{
  ℕ, ◌+◌, ◌≡◌, refl, ap, ◌∙◌, ◌&&◌, leb, if◌then◌else◌, List, [], ◌∷◌, map, Bool-cases, inl, inr,
  length, All,
}
use peerline.Net.Pkarr.{
  PkarrAnnouncement, AnnouncementRecord, PkarrLibrary, from_record, sort_packed, insert_packed,
  comes_before,
}

-- The records of an announcement in the order in which they are packed.
module _ (lib : PkarrLibrary) where
  insert_record : AnnouncementRecord → List AnnouncementRecord → List AnnouncementRecord
  insert_record r [] = r ∷ []
  insert_record r (s ∷ sorted) =
      let later = insert_record r sorted in
      if comes_before (from_record lib r) (from_record lib s) then r ∷ s ∷ sorted else s ∷ later

  pub sort_records : List AnnouncementRecord → List AnnouncementRecord → List AnnouncementRecord
  sort_records sorted [] = sorted
  sort_records sorted (r ∷ rs) = sort_records (insert_record r sorted) rs

  -- The records that still fit, one after another, where `used` bytes of the budget are taken: each takes
  -- two bytes and its data, of which there are 255 at most.
  unfoldable pub fitting : ℕ → ℕ → List AnnouncementRecord → List AnnouncementRecord
  fitting max_bytes used [] = []
  fitting max_bytes used (r ∷ rs) =
      let size = length (from_record lib r).data_bytes in
      let without = fitting max_bytes used rs in
      let later = fitting max_bytes (used + 2 + size) rs in
      if leb size 255 && leb (used + 2 + size) max_bytes then r ∷ later else without

  map-insert_record :
      (r : AnnouncementRecord) (rs : List AnnouncementRecord)
      → map (from_record lib) (insert_record r rs)
        ≡ insert_packed (from_record lib r) (map (from_record lib) rs)
  unfolding insert_record insert_packed
  map-insert_record r [] = refl
  map-insert_record r (s ∷ rs) =
      elim (Bool-cases (comes_before (from_record lib r) (from_record lib s))) [
        | inl before ↦ rw before refl
        | inr behind ↦ rw behind (ap (◌∷◌ (from_record lib s)) (map-insert_record r rs))
      ]

  pub map-sort_records :
      (sorted rs : List AnnouncementRecord)
      → map (from_record lib) (sort_records sorted rs)
        ≡ sort_packed (map (from_record lib) sorted) (map (from_record lib) rs)
  unfolding sort_records sort_packed
  map-sort_records sorted [] = refl
  map-sort_records sorted (r ∷ rs) =
      map-sort_records (insert_record r sorted) rs
      ∙ ap (λ ps. sort_packed ps (map (from_record lib) rs)) (map-insert_record r sorted)

  module _ (Q : AnnouncementRecord → Type 0) where
    insert_record-All :
        (r : AnnouncementRecord) (sorted : List AnnouncementRecord)
        → Q r
        → All Q sorted
        → All Q (insert_record r sorted)
    unfolding insert_record
    insert_record-All r [] q h = (q, tt)
    insert_record-All r (s ∷ sorted) q h =
        elim (Bool-cases (comes_before (from_record lib r) (from_record lib s))) [
          | inl before ↦ rw before (q, h)
          | inr behind ↦ rw behind (h.0, insert_record-All r sorted q h.1)
        ]

    pub sort_records-All :
        (sorted rs : List AnnouncementRecord)
        → All Q sorted
        → All Q rs
        → All Q (sort_records sorted rs)
    unfolding sort_records
    sort_records-All sorted [] h k = h
    sort_records-All sorted (r ∷ rs) h k =
        sort_records-All (insert_record r sorted) rs (insert_record-All r sorted k.0 h) k.1

  -- The records of the announcement that are packed within a budget: in the order of their priorities, of
  -- the lengths of their data and of their kinds, each that fits behind those before it.
  abbrev pub chosen : PkarrAnnouncement → ℕ → List AnnouncementRecord
  chosen a max_bytes = fitting max_bytes (2 + length a.peer_id) (sort_records [] a.records)
