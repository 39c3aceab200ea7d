-- ===== src/RateLimit/Peers.antt =====
-- The address of a client behind a proxy.
use kepryx.Base.{
  ◌≡◌, ◌≢◌, refl, Bool, true, false, Option, none, some, List, str_eq, Bool-cases, inl, inr, String,
}
use kepryx.Networks.{IpTexts}
use kepryx.RateLimit.{
  Request, peer_trusted, forwarded_ip, get_request_ip, by_peer, by_header, truthy, or_header,
}

-- The headers of a request are not believed unless its peer is a trusted proxy: the address is then
-- the peer's, whatever they say.
untrusted_peer_ip :
    (texts : IpTexts) (trusted : List String) (r : Request) (peer : String)
    → r.peer ≡ some peer
    → peer_trusted texts trusted peer ≢ some true
    → get_request_ip texts trusted r ≡ peer
unfolding get_request_ip by_peer by_header forwarded_ip
untrusted_peer_ip texts trusted r peer e h =
    rw (e, by_peer) (by_header_peer (truthy (or_header r.x_real_ip r.x_forwarded_for)))
  where
    forwarded_peer :
        (b : Option Bool) (f : String) → b ≢ some true → forwarded_ip texts b peer f ≡ peer
    forwarded_peer none f n = refl
    forwarded_peer (some false) f n = refl
    forwarded_peer (some true) f n = absurd (n refl)

    by_header_peer : (f : Option String) → by_header texts trusted peer f ≡ peer
    by_header_peer none = refl
    by_header_peer (some f) = elim (Bool-cases (str_eq peer "unknown")) [
      | inl q ↦ rw q
      | inr q ↦ rw q (forwarded_peer (peer_trusted texts trusted peer) f h)
    ]
