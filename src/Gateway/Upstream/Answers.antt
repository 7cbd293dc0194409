-- ===== src/Gateway/Upstream/Answers.antt =====
-- The upstream's answer as a SOCKS5 server writes it.
use free_net_hub.Prelude.{
  ℕ, ◌≡◌, refl, ◌∙◌, [], ◌∷◌, ◌++◌, ◌≤◌, not, ◌||◌, take, drop, arith, length, append_assoc,
}
use free_net_hub.Prelude.Exec.{pure, raise_when, ◌>>=◌, ◌>>◌}
use free_net_hub.Prelude.Faults.{Triple, Ends}
use free_net_hub.Prelude.Faults.Rules.{Triple-bind, Triple-except, Triple-pure}
use free_net_hub.Text.{Text, eq_text}
use free_net_hub.Gateway.Socket.{Conn, sendall, exact, upstream_unavailable}
use free_net_hub.Gateway.Request.{first}
use free_net_hub.Gateway.Request.RoundTrip.{
  Stream, run-exact, run-exact_last, run-sendall, run-raise_when,
}
use free_net_hub.Gateway.Upstream.{
  to_bytes, request_bytes, skip_address, handshake, connect_upstream,
}

-- The address in an answer: its type, and its bytes.
pub data Address : Type 0 where
  ipv4 ipv6 name : Text → Address

abbrev pub IsAddress : Address → Type 0
IsAddress (ipv4 a) = length a ≡ 4
IsAddress (ipv6 a) = length a ≡ 16
IsAddress (name a) = Unit

abbrev pub encode : Address → Text
encode (ipv4 a) = 1 ∷ a
encode (ipv6 a) = 4 ∷ a
encode (name a) = 3 ∷ length a ∷ a

-- The bytes of an answer that accepts, and those that the gateway sends.
abbrev pub accept : Address → Text → Text
accept a port = 5 ∷ 0 ∷ 5 ∷ 0 ∷ 0 ∷ (encode a ++ port)

abbrev pub asked : Text → ℕ → Text
asked host port = 5 ∷ 1 ∷ 0 ∷ 3 ∷ length host ∷ (host ++ to_bytes port)

fixed :
    (size : ℕ) (a rest sent : Text)
    → length a ≡ size
    → Triple (Stream (a ++ rest) sent) (exact size) (λ _. Stream rest sent) (λ _ _. ⊥)
fixed size a rest sent e = rw (← e) (run-exact_last a rest sent)

rest_of :
    (port more sent : Text)
    → length port ≡ 2
    → Triple (Stream (port ++ more) sent) (exact 2 >> pure tt) (λ _. Stream more sent) (λ _ _. ⊥)
rest_of port more sent two =
    Triple-bind _ _ (fixed 2 port more sent two) (λ _. Triple-pure tt (λ c p. p))

abbrev kind : Address → ℕ
kind (ipv4 a) = 1
kind (ipv6 a) = 4
kind (name a) = 3

abbrev body : Address → Text
body (ipv4 a) = a
body (ipv6 a) = a
body (name a) = length a ∷ a

encode-kind : (a : Address) → encode a ≡ kind a ∷ body a
encode-kind (ipv4 a) = refl
encode-kind (ipv6 a) = refl
encode-kind (name a) = refl

-- The address is skipped, and nothing behind it.
skip_address-Triple :
    (a : Address) (rest sent : Text)
    → IsAddress a
    → Triple
        (Stream (body a ++ rest) sent)
        (skip_address (kind a))
        (λ _. Stream rest sent)
        (λ _ _. ⊥)
unfolding skip_address
skip_address-Triple (ipv4 a) rest sent four = fixed 4 a rest sent four
skip_address-Triple (ipv6 a) rest sent sixteen = fixed 16 a rest sent sixteen
skip_address-Triple (name a) rest sent any_ =
    run-exact (length a ∷ []) (a ++ rest) sent _ (run-exact_last a rest sent)

-- A host of a byte's length and a port of two bytes are written.
request_bytes-Triple :
    (host : Text) (port : ℕ) (P : Conn → Type 0)
    → length host ≤ 255
    → port ≤ 65535
    → Triple P (request_bytes host port) (λ request c. (request ≡ asked host port) × P c) (λ _ _. ⊥)
unfolding request_bytes
request_bytes-Triple host port P short low =
    run-raise_when _ _ _ (ground arith)
      (run-raise_when _ _ _ (ground arith) (Triple-pure (asked host port) (λ c p. (refl, p))))

answer_read :
    (host : Text) (port : ℕ) (a : Address) (bound more sent : Text)
    → IsAddress a
    → length bound ≡ 2
    → (request : Text) → request ≡ asked host port
    → Triple
        (Stream (5 ∷ 0 ∷ 0 ∷ kind a ∷ (body a ++ (bound ++ more))) sent)
        (do
          sendall request
          header ← exact 4
          raise_when
              (not (eq_text (take 1 header) (5 ∷ []))
                || not (eq_text (take 2 (drop 1 header)) (0 ∷ 0 ∷ [])))
              upstream_unavailable
          skip_address (first (drop 3 header))
          exact 2
          pure tt)
        (λ _. Stream more (sent ++ asked host port))
        (λ _ _. ⊥)
unfolding eq_text
answer_read host port a bound more sent wide two request e = rw e (
    run-sendall _ sent (asked host port) _ (
      run-exact (5 ∷ 0 ∷ 0 ∷ kind a ∷ []) (body a ++ (bound ++ more)) _ _ (
        run-raise_when _ _ _ refl (
          Triple-bind _ _ (skip_address-Triple a (bound ++ more) _ wide)
            (λ _. rest_of bound more _ two)))))

handshake-Triple :
    (host : Text) (port : ℕ) (a : Address) (bound more sent : Text)
    → length host ≤ 255
    → port ≤ 65535
    → IsAddress a
    → length bound ≡ 2
    → Triple
        (Stream (5 ∷ 0 ∷ 5 ∷ 0 ∷ 0 ∷ kind a ∷ (body a ++ (bound ++ more))) sent)
        (handshake host port)
        (λ _. Stream more ((sent ++ (5 ∷ 1 ∷ 0 ∷ [])) ++ asked host port))
        (λ _ _. ⊥)
unfolding handshake eq_text
handshake-Triple host port a bound more sent short low wide two =
    run-sendall _ sent (5 ∷ 1 ∷ 0 ∷ []) _ (
      run-exact (5 ∷ 0 ∷ []) _ _ _ (
        run-raise_when _ _ _ refl (
          Triple-bind _ _ (request_bytes-Triple host port _ short low) (λ request. record {
            at = λ c q. (answer_read host port a bound more _ wide two request q.0).at c q.1;
          }))))

-- For a host of at most 255 bytes and a port of at most 65535, and on a connection that can be
-- written to, an upstream that accepts, with an address of any of the
-- three types and in any segments that are not empty, is understood: the greeting
-- and the request are sent, the answer is read to its end and no byte further, so that what the
-- upstream sends next is left for the tunnel.
pub connect_upstream_round_trip :
    (host : Text) (port : ℕ) (a : Address) (bound more sent : Text) (c : Conn)
    → length host ≤ 255
    → port ≤ 65535
    → IsAddress a
    → length bound ≡ 2
    → Stream (accept a bound ++ more) sent c
    → Ends
        (λ _ d. Stream more ((sent ++ (5 ∷ 1 ∷ 0 ∷ [])) ++ asked host port) d)
        (λ _ _. ⊥)
        (connect_upstream host port c)
unfolding connect_upstream
connect_upstream_round_trip host port a bound more sent c short low wide two stream =
    (Triple-except _ _ (handshake-Triple host port a bound more sent short low wide two)
        (λ e. record { at = λ d f. absurd f })).at
      c
      (record {
        comes = stream.comes ∙ rw (encode-kind a, append_assoc (body a) bound more) refl;
        filled = stream.filled;
        answered = stream.answered;
        open_ = stream.open_;
      })
