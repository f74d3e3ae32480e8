-- ===== src/Net/Tests/Announcements.antt =====
-- An announcement of two endpoints, of which one fits the budget.
use peerline.Base.{
  arith, ◌≡◌, ◌≢◌, ◌≤◌, refl, [], ◌∷◌, List, Option, some, Result, ok, err, length, All,
}
use peerline.Base.Text.{Bytes, codes}
use peerline.Net.Pkarr.{
  v4, direct, public_tunnel, other_protocol, AnnouncementRecord, PkarrAnnouncement, PkarrLibrary,
  out_of_fuel, encode_with_budget, decode, from_record, decode_record,
}
use peerline.Net.Pkarr.Budget.{length-encode_with_budget}
use peerline.Net.Pkarr.Ends.{decode-terminates}
use peerline.Net.Pkarr.Choice.{chosen}
use peerline.Net.Pkarr.Reading.{decode-encode_with_budget}

abbrev lib : PkarrLibrary
lib = record {
  peer_id_from_bytes = λ b. some b;
  multiaddr_from_bytes = λ b. some b;
  protocols = λ b. other_protocol ∷ [];
  from_utf8 = λ b. some b;
  normalize_tor_onion_url = λ t. some t;
  normalize_i2p_url = λ t. some t;
  normalize_public_tunnel_url = λ t. some t;
}

abbrev address : AnnouncementRecord
address = direct (v4 (1 ∷ 2 ∷ 3 ∷ 4 ∷ [])) 80

abbrev announcement : PkarrAnnouncement
announcement = record { peer_id = 9 ∷ []; records = public_tunnel (codes "u") ∷ address ∷ [] }

-- The version, the peer and the address.
abbrev payload : Bytes
payload = 1 ∷ 1 ∷ 9 ∷ 1 ∷ 6 ∷ 1 ∷ 2 ∷ 3 ∷ 4 ∷ 0 ∷ 80 ∷ []

encoded : encode_with_budget lib announcement 12 ≡ ok payload
unfolding encode_with_budget peerline.Net.Pkarr.include_records peerline.Net.Pkarr.sort_packed
    peerline.Net.Pkarr.insert_packed peerline.Net.Pkarr.comes_before from_record
    peerline.Net.Pkarr.direct_record_priority peerline.Net.Pkarr.has_room peerline.Base.Text.utf8
    peerline.Base.Words.be_bytes
encoded = refl

length-encode_with_budget_example : length payload ≤ 12
length-encode_with_budget_example = length-encode_with_budget lib announcement 12 payload encoded

decode-encode_with_budget_example :
    decode lib payload ≡ ok (record { peer_id = 9 ∷ []; records = chosen lib announcement 12 })
unfolding peerline.Base.Text.utf8
decode-encode_with_budget_example =
    decode-encode_with_budget lib announcement 12 payload refl
      ((refl, refl), ((refl, omega arith), tt)) encoded

decode-terminates_example : decode lib payload ≢ err out_of_fuel
decode-terminates_example = decode-terminates lib payload
