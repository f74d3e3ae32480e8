-- ===== src/Net/Direct/Outcome.antt =====
-- direct.rs: the transfer that `recv_once_bound` ends with, and the connection that it came over.
use peerline.Base.{◌≡◌, refl, ap, subst, List, [], ◌∷◌, ◌++◌, Option, none, some, Result, ok, err}
use peerline.Base.Text.{Text}
use peerline.Net.Direct.{Connection, Incoming}
use peerline.Net.Direct.Arrives.{Arrived, receive_stream-Arrived}
use peerline.Net.Direct.Stream.{receive_stream, next_connection, recv_once_bound}
use peerline.Core.Event.{lan_direct, connecting, stage_changed}
use peerline.Net.Site.{Receiving, Site, ReceivedTransfer, NetError, report}
use peerline.Net.Step.Yields.{OnOk}

module _ (receiving : Receiving) (message_of : NetError → Text) where
  -- The connection that a transfer came over, after others that failed, and how it came.
  pub record Reception (connections : List Incoming) (site end : Site) (t : ReceivedTransfer)
      : Type 0 where
    pub before : List Incoming
    pub incoming : Incoming
    pub after : List Incoming
    pub middle : Site
    pub split : connections ≡ before ++ incoming ∷ after
    pub earlier : recv_once_bound receiving message_of before site ≡ (none, middle)
    pub arrived : Arrived middle.tree receiving incoming t end

  abbrev start : Incoming → Site → Connection
  start incoming site = record {
    inbox = incoming.frames;
    outbox = [];
    site = report (stage_changed (connecting lan_direct)) site;
  }

  received-eq :
      {t u : ReceivedTransfer} {site end : Site}
      → ◌≡◌ {A = Option ReceivedTransfer × Site} (some t, site) (some u, end)
      → (t ≡ u) × (site ≡ end)
  received-eq e = (cc, cc)

  next_connection-Reception :
      (incoming : Incoming) (later : List Incoming) (site end : Site) (t : ReceivedTransfer)
      (r : Result NetError ReceivedTransfer × Connection)
      → receive_stream receiving incoming (start incoming site) ≡ r
      → OnOk (λ u. Arrived site.tree receiving incoming u r.1.site) r.0
      → ((site' : Site)
          → recv_once_bound receiving message_of later site' ≡ (some t, end)
          → Reception later site' end t)
      → next_connection receiving message_of incoming.peer r
          (recv_once_bound receiving message_of later)
        ≡ (some t, end)
      → Reception (incoming ∷ later) site end t
  unfolding recv_once_bound
  next_connection-Reception incoming later site end t (ok u, c) ran whole rest e =
      let (same, at_end) = received-eq e in
      record {
        before = [];
        incoming = incoming;
        after = later;
        middle = site;
        split = refl;
        earlier = refl;
        arrived =
            subst (λ s. Arrived site.tree receiving incoming t s) at_end
              (subst (λ v. Arrived site.tree receiving incoming v c.site) same whole);
      }
  next_connection-Reception incoming later site end t (err e', c) ran whole rest e =
      let found = rest _ e in
      record {
        before = incoming ∷ found.before;
        incoming = found.incoming;
        after = found.after;
        middle = found.middle;
        split = ap (◌∷◌ incoming) found.split;
        earlier = rw ran found.earlier;
        arrived = found.arrived;
      }

  -- A transfer that a direct receiver ends with came over one of its connections, and those before it gave
  -- none. It is that of an archive that has the size and the hash of the descriptor in the first frame
  -- of that connection; and the archive unpacked without an error, with the compression of that
  -- descriptor, onto the destination as the connections before it left it, to the destination as the
  -- receiver leaves it.
  pub recv_once_bound-Reception :
      (connections : List Incoming) (site end : Site) (t : ReceivedTransfer)
      → recv_once_bound receiving message_of connections site ≡ (some t, end)
      → Reception connections site end t
  unfolding recv_once_bound
  recv_once_bound-Reception [] site end t e = cc
  recv_once_bound-Reception (incoming ∷ later) site end t e =
      next_connection-Reception incoming later site end t _ refl
        ((receive_stream-Arrived site.tree receiving incoming).apply (start incoming site)
          (refl, refl))
        (λ site' e'. recv_once_bound-Reception later site' end t e') e
