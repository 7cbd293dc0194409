-- ===== src/Gateway/Tests.antt =====
-- The theorems on crossplatform/linux/tailnet_cfon_gateway.py at concrete inputs.
use free_net_hub.Prelude.{
  ℕ, suc, ◌≤◌, ◌<◌, All, length, ◌≡◌, ◌↔◌, refl, true, false, Option, none, some, List, [], ◌∷◌,
  ◌++◌, if◌then◌else◌, inl, inr, arith, ok,
}
use free_net_hub.Prelude.Faults.{Ends}
use free_net_hub.Text.{Text, Tables, text, split_on, eq_text}
use free_net_hub.Hosts.Address.{IpAddress, is_outside, IsTailnet}
use free_net_hub.Hosts.{shape_ok}
use free_net_hub.Hosts.Fixed.{IsShaped, shape_ok-IsShaped}
use free_net_hub.Selective.Pac.{find_proxy, socks5}
use free_net_hub.Selective.Pac.Routes.{Covered}
use free_net_hub.Gateway.Socket.{Conn, exact}
use free_net_hub.Gateway.Socket.Exact.{Reads, exact-Reads}
use free_net_hub.Gateway.Request.{read_request, safe_host}
use free_net_hub.Gateway.Request.Segments.{Same, SameRun, read_request_segments, handshake_segments}
use free_net_hub.Gateway.Request.Targets.{safe_host-find_proxy}
use free_net_hub.Gateway.Request.RoundTrip.{Stream, hello, connect, read_request_round_trip}
use free_net_hub.Gateway.Request.Safety.{read_request-Covered}
use free_net_hub.Gateway.Upstream.{handshake, connect_upstream}
use free_net_hub.Gateway.Upstream.Answers.{ipv4, asked, connect_upstream_round_trip}
use free_net_hub.Gateway.Upstream.Closes.{connect_upstream_closes}
use free_net_hub.Gateway.Sessions.{
  Sessions, no_sessions, arrive, remove, end_session, Reachable, start, arrival, sessions_bounded,
}
use free_net_hub.Gateway.Peers.{Tailnet, tailnet_ip, check_peers, verify_peers}
use free_net_hub.Gateway.Peers.Links.{IsLink, verify_peers-IsLink}

abbrev tables : Tables
tables = record { lower_other = λ s. s; upper_other = λ s. s; idna_other = λ s. none }

abbrev host : Text
host = text "api.stripe.com"

abbrev domains : List Text
domains = text "stripe.com" ∷ []

host-IsShaped : IsShaped host
unfolding split_on
host-IsShaped = shape_ok-IsShaped host (unfold shape_ok in refl)

host-Covered : Covered domains host
host-Covered = (text "stripe.com", inl refl, inr (text "api", refl))

abbrev asking : Text
asking = hello (0 ∷ 2 ∷ []) ++ (connect host ++ text "tls")

-- The request in one segment, and with its first byte apart.
abbrev at_once : Conn
at_once = record {
  incoming = asking ∷ [];
  broken = false;
  sent = [];
  writable = true;
  closed = false;
}

abbrev in_two : Conn
in_two = record {
  incoming = (5 ∷ []) ∷ ((2 ∷ 0 ∷ 2 ∷ []) ++ (connect host ++ text "tls")) ∷ [];
  broken = false;
  sent = [];
  writable = true;
  closed = false;
}

at_once-Same : Same at_once in_two
at_once-Same = record {
  stream = refl;
  filled_left = (refl, tt);
  filled_right = (refl, (refl, tt));
  broken = refl;
  sent = refl;
  writable = refl;
  closed = refl;
}

exact-Reads_example : Reads in_two [] 3 (exact 3 in_two)
exact-Reads_example = exact-Reads 3 in_two (refl, (refl, tt))

read_request_segments_example : SameRun (read_request domains at_once) (read_request domains in_two)
read_request_segments_example = read_request_segments domains at_once in_two at_once-Same

handshake_segments_example : SameRun (handshake host 443 at_once) (handshake host 443 in_two)
handshake_segments_example = handshake_segments host 443 at_once in_two at_once-Same

read_request_round_trip_example :
    Ends
      (λ got d. (got ≡ host) × Stream (text "tls") (5 ∷ 0 ∷ []) d)
      (λ _ _. ⊥)
      (read_request domains in_two)
read_request_round_trip_example =
    read_request_round_trip (0 ∷ 2 ∷ []) host (text "tls") [] domains in_two (omega arith)
      (omega arith) refl (omega arith) host-IsShaped host-Covered
      (record { comes = refl; filled = (refl, (refl, tt)); answered = refl; open_ = refl })

read_request-Covered_example :
    Ends
      (λ host d. IsShaped host × Covered domains host)
      (λ _ _. Unit)
      (read_request domains in_two)
read_request-Covered_example = read_request-Covered domains in_two

abbrev answering : Conn
answering = record {
  incoming = (5 ∷ 0 ∷ 5 ∷ []) ∷ (0 ∷ 0 ∷ 1 ∷ 127 ∷ 0 ∷ 0 ∷ 1 ∷ 4 ∷ 210 ∷ 22 ∷ []) ∷ [];
  broken = false;
  sent = [];
  writable = true;
  closed = false;
}

connect_upstream_round_trip_example :
    Ends
      (λ _ d. Stream (22 ∷ []) ((5 ∷ 1 ∷ 0 ∷ []) ++ asked host 443) d)
      (λ _ _. ⊥)
      (connect_upstream host 443 answering)
connect_upstream_round_trip_example =
    connect_upstream_round_trip host 443 (ipv4 (127 ∷ 0 ∷ 0 ∷ 1 ∷ [])) (4 ∷ 210 ∷ []) (22 ∷ []) []
      answering (omega arith) (omega arith) refl refl
      (record { comes = refl; filled = (refl, (refl, tt)); answered = refl; open_ = refl })

-- No port has three bytes, so the answer is not read.
connect_upstream_closes_example :
    Ends
      (λ _ d. ((length host ≤ 255) × (70000 ≤ 65535)) × (d.closed ≡ false))
      (λ _ d. d.closed ≡ true)
      (connect_upstream host 70000 answering)
connect_upstream_closes_example = connect_upstream_closes host 70000 answering

safe_host-find_proxy_example :
    (safe_host host domains ≡ ok host) ↔ (find_proxy tables domains 9150 host ≡ socks5 9150)
safe_host-find_proxy_example = safe_host-find_proxy tables host domains 9150 host-IsShaped

abbrev ip_address : Text → Option IpAddress
ip_address given =
    if eq_text given (text "100.64.0.1")
    then some (record { version = 4; value = 1681915905; canonical = text "100.64.0.1" })
    else if eq_text given (text "100.64.0.2")
    then some (record { version = 4; value = 1681915906; canonical = text "100.64.0.2" })
    else none

abbrev tailnet : Tailnet
tailnet = record {
  backend_state = text "Running";
  self = record { ips = text "100.64.0.1" ∷ []; online = some true };
  peers = record { ips = text "100.64.0.2" ∷ []; online = some true } ∷ [];
}

pair_verified :
    verify_peers ip_address (text "100.64.0.1") (text "100.64.0.2") tailnet
    ≡ ok (text "100.64.0.1", text "100.64.0.2")
unfolding verify_peers tailnet_ip check_peers is_outside eq_text
pair_verified = refl

verify_peers-IsLink_example :
    IsTailnet ip_address (text "100.64.0.1") (text "100.64.0.1")
    × IsTailnet ip_address (text "100.64.0.2") (text "100.64.0.2")
    × IsLink tailnet (text "100.64.0.1") (text "100.64.0.2")
verify_peers-IsLink_example =
    verify_peers-IsLink ip_address (text "100.64.0.1") (text "100.64.0.2") tailnet pair_verified

abbrev one_session : Sessions
one_session = arrive (text "100.64.0.2") (text "100.64.0.2") no_sessions

one_session-Reachable : Reachable (text "100.64.0.2") one_session
one_session-Reachable = arrival (text "100.64.0.2") no_sessions start

sessions_bounded_example :
    (length one_session.active ≤ 16)
    × All (λ c. c ≡ text "100.64.0.2") one_session.active
    × ((n : ℕ)
        → n < length one_session.active
        → end_session n one_session
          ≡ some (record { free = suc one_session.free; active = remove n one_session.active }))
sessions_bounded_example = sessions_bounded (text "100.64.0.2") one_session one_session-Reachable
