-- ===== src/Rendezvous/Shard/Pages.antt =====
-- lib.rs of the service: two look-ups of `discover` one after the other.
use peerline.Base.{ℕ, false, ◌≡◌, ◌∙◌, refl, ap, [], List, filter_map, retain, take}
use peerline.Rendezvous.Auth.{ShardConfig}
use peerline.Rendezvous.Library.{Library}
use peerline.Rendezvous.Model.{DiscoverResponse}
use peerline.Rendezvous.Reply.{done, discovered, ◌>>=◌, asks, modify}
use peerline.Rendezvous.Shard.{returning, record_of_row, read_registrations}
use peerline.Rendezvous.Table.{Store, Registration, cleanup_expired, select_live, max_live_cookie}
use peerline.Rendezvous.Table.Page.{
  is_due, none_past, retain_due-live, max_live_cookie-live, IsNewest, max_live_cookie-IsNewest,
}

module _ (lib : Library) (config : ShardConfig) (now : ℕ) where
  -- The page that a look-up answers, by the rows that the table has.
  abbrev pub page : ℕ → ℕ → List Registration → DiscoverResponse
  page after_cookie limit rs = record {
    cookie = max_live_cookie now rs;
    records =
        filter_map (record_of_row lib config now)
          (take limit (retain (is_due now after_cookie) rs));
  }

  page_live :
      (after_cookie limit : ℕ) (s : Store)
      → page after_cookie limit (cleanup_expired now s).registrations
        ≡ page after_cookie limit s.registrations
  unfolding cleanup_expired
  page_live after_cookie limit s = λ i. record {
    cookie = max_live_cookie-live now s.registrations i;
    records =
        filter_map (record_of_row lib config now)
          (take limit (retain_due-live now after_cookie s.registrations i));
  }

  read_registrations-page :
      (after_cookie limit : ℕ) (s : Store)
      → read_registrations lib config now after_cookie limit s ≡ (
        done (returning false (discovered (page after_cookie limit s.registrations))),
        cleanup_expired now s,
      )
  unfolding read_registrations ◌>>=◌ asks modify select_live
  read_registrations-page after_cookie limit s = λ i. (
    done (returning false (discovered (page_live after_cookie limit s i))),
    cleanup_expired now s,
  )

  -- A look-up, whatever its cursor and limit, answers a page with the records of the first rows that are live
  -- and past the cursor, as many as the limit allows; its cookie is one that no live row exceeds, and
  -- that a live row has or that is 0. A look-up from that cookie on, at the same time, answers the
  -- same cookie and no records, whatever the limits: what the first limit cut off is passed over.
  pub read_registrations-read_registrations :
      (after_cookie limit next_limit : ℕ) (s : Store)
      → let (reply, s') = read_registrations lib config now after_cookie limit s in
        (first : DiscoverResponse) × (reply ≡ done (returning false (discovered first)))
        × (first.records
            ≡ filter_map
                (record_of_row lib config now)
                (take limit (retain (is_due now after_cookie) s.registrations)))
        × IsNewest now s.registrations first.cookie
        × ((read_registrations lib config now first.cookie next_limit s').0
            ≡ done (returning false (discovered (record { cookie = first.cookie; records = [] }))))
  unfolding cleanup_expired filter_map
  read_registrations-read_registrations after_cookie limit next_limit s =
      let first = page after_cookie limit s.registrations in
      (
        first,
        ap (λ r. r.0) (read_registrations-page after_cookie limit s),
        refl,
        max_live_cookie-IsNewest now s.registrations,
        ap (λ s'. (read_registrations lib config now first.cookie next_limit s').0)
              (ap (λ r. r.1) (read_registrations-page after_cookie limit s))
            ∙ (ap (λ r. r.0)
                  (read_registrations-page first.cookie next_limit (cleanup_expired now s))
                ∙ ap (λ p. done (returning false (discovered p)))
                    (page_live first.cookie next_limit s ∙ last next_limit s)),
      )
    where
      last :
          (next_limit : ℕ) (s : Store)
          → page (max_live_cookie now s.registrations) next_limit s.registrations
            ≡ record { cookie = max_live_cookie now s.registrations; records = [] }
      last next_limit s = λ i. record {
        cookie = max_live_cookie now s.registrations;
        records =
            filter_map (record_of_row lib config now) (none_past now next_limit s.registrations i);
      }
