-- ===== src/Gateway/Upstream/Closes.antt =====
-- How `_connect_owned_upstream` leaves its connection.
use free_net_hub.Prelude.{
  ℕ, zero, suc, ◌-◌, ◌≤◌, ◌≡◌, refl, Bool, true, Bool-cases, inl, inr, not, ◌||◌, take, drop, List,
  [], ◌∷◌, ◌++◌, arith, leb, ◌==◌, length, is_nil,
}
use free_net_hub.Prelude.Exec.{pure, raise_when, modify, ◌>>=◌, ◌>>◌}
use free_net_hub.Prelude.Faults.{Triple, Ends}
use free_net_hub.Prelude.Faults.Rules.{
  Triple-bind, Triple-except, Triple-pure, Triple-raise, Triple-if, Triple-raise_when,
}
use free_net_hub.Text.{Text, eq_text}
use free_net_hub.Gateway.Socket.{
  GatewayError, Conn, S, recv_at, recv, sendall, exact_loop, exact, truncated, out_of_fuel,
  value_error, overflow_error, bad_upstream_reply, upstream_unavailable,
}
use free_net_hub.Gateway.Request.{first}
use free_net_hub.Gateway.Upstream.{request_bytes, skip_address, handshake, connect_upstream}

module _ (b : Bool) where
  abbrev StaysAs : Conn → Type 0
  StaysAs d = d.closed ≡ b

  abbrev Steady : {A : Type 0} → S A → Type 0
  Steady m = Triple StaysAs m (λ _. StaysAs) (λ _. StaysAs)

  recv_at-Steady :
      (size : ℕ) (segments : List Text) (c : Conn)
      → StaysAs c
      → Ends (λ _. StaysAs) (λ _. StaysAs) (recv_at size segments c)
  recv_at-Steady size [] c k = elim (Bool-cases c.broken) [ inl y ↦ rw y k | inr n ↦ rw n k ]
  recv_at-Steady size (segment ∷ rest) c k = elim (Bool-cases (leb (length segment) size)) [
    | inl y ↦ rw y k
    | inr n ↦ rw n k
  ]

  recv-Steady : (size : ℕ) → Steady (recv size)
  unfolding recv
  recv-Steady size = record { at = λ c k. recv_at-Steady size c.incoming c k }

  exact_loop-Steady : (fuel size : ℕ) (found : Text) → Steady (exact_loop fuel size found)
  unfolding exact_loop
  exact_loop-Steady zero size found =
      Triple-if _ _ _ (λ _. Triple-pure found (λ c k. k)) (λ _. Triple-raise out_of_fuel (λ c k. k))
  exact_loop-Steady (suc fuel) size found =
      Triple-if (length found == size) _ _ (λ _. Triple-pure found (λ c k. k))
        (λ _. Triple-bind _ _ (recv-Steady (size - length found)) (λ segment.
          Triple-if (is_nil segment) _ _ (λ _. Triple-raise truncated (λ c k. k))
            (λ _. exact_loop-Steady fuel size (found ++ segment))))

  exact-Steady : (size : ℕ) → Steady (exact size)
  unfolding exact
  exact-Steady size = exact_loop-Steady size size []

  sendall-Steady : (data_ : Text) → Steady (sendall data_)
  unfolding sendall
  sendall-Steady data_ = record {
    at = λ c k. elim (Bool-cases c.writable) [ inl y ↦ rw y k | inr n ↦ rw n k ];
  }

  raise_when-Steady : (t : Bool) (e : GatewayError) → Steady (raise_when t e)
  raise_when-Steady t e = Triple-raise_when t e (λ c _ k. k) (λ c _ k. k)

  skip_address-Steady : (kind : ℕ) → Steady (skip_address kind)
  unfolding skip_address
  skip_address-Steady kind =
      Triple-if (kind == 1) _ _ (λ _. exact-Steady 4)
        (λ _.
          Triple-if (kind == 4) _ _ (λ _. exact-Steady 16)
            (λ _.
              Triple-if (kind == 3) _ _
                (λ _.
                  Triple-bind (exact 1) (λ count. exact (first count)) (exact-Steady 1)
                    (λ count. exact-Steady (first count)))
                (λ _. Triple-raise bad_upstream_reply (λ c k. k))))

  module _ (host : Text) (port : ℕ) where
    abbrev Fits : Type 0
    Fits = (length host ≤ 255) × (port ≤ 65535)

    request_bytes-Fits :
        Triple StaysAs (request_bytes host port) (λ _ c. Fits × StaysAs c) (λ _. StaysAs)
    unfolding request_bytes
    request_bytes-Fits =
        Triple-bind _ _
          (Triple-raise_when {Q = λ c. (length host ≤ 255) × StaysAs c} _ value_error
            (λ c h k. (ground arith, k)) (λ c _ k. k))
          (λ _.
            Triple-bind _ _
              (Triple-raise_when {Q = λ c. Fits × StaysAs c} _ overflow_error
                (λ c h k. ((k.0, ground arith), k.1)) (λ c _ k. k.1))
              (λ _. Triple-pure _ (λ c k. k)))

    answer-Fits :
        (request : Text)
        → Fits
        → Triple StaysAs
            (do
              sendall request
              header ← exact 4
              raise_when
                  (not (eq_text (take 1 header) (5 ∷ []))
                    || not (eq_text (take 2 (drop 1 header)) (0 ∷ 0 ∷ [])))
                  upstream_unavailable
              skip_address (first (drop 3 header))
              exact 2
              pure tt)
            (λ _ c. Fits × StaysAs c)
            (λ _. StaysAs)
    answer-Fits request fits = Triple-bind _ _ (sendall-Steady request) (λ _.
        Triple-bind _ _ (exact-Steady 4) (λ header. Triple-bind _ _ (raise_when-Steady _ _) (λ _.
          Triple-bind _ _ (skip_address-Steady _)
            (λ _. Triple-bind _ _ (exact-Steady 2) (λ _. Triple-pure tt (λ c k. (fits, k)))))))

    handshake-Fits : Triple StaysAs (handshake host port) (λ _ c. Fits × StaysAs c) (λ _. StaysAs)
    unfolding handshake
    handshake-Fits = Triple-bind _ _ (sendall-Steady _) (λ _.
        Triple-bind _ _ (exact-Steady 2) (λ chosen. Triple-bind _ _ (raise_when-Steady _ _) (λ _.
          Triple-bind _ _ request_bytes-Fits
            (λ request. record { at = λ c q. (answer-Fits request q.0).at c q.1 }))))

-- If `_connect_owned_upstream` returns, the connection is as open as it was, and the host had at most
-- 255 bytes and the port two; if it raises, for whatever reason, the connection is closed.
pub connect_upstream_closes :
    (host : Text) (port : ℕ) (c : Conn)
    → Ends
        (λ _ d. ((length host ≤ 255) × (port ≤ 65535)) × (d.closed ≡ c.closed))
        (λ _ d. d.closed ≡ true)
        (connect_upstream host port c)
unfolding connect_upstream modify
connect_upstream_closes host port c =
    (Triple-except _ _ (handshake-Fits c.closed host port) (λ e.
        Triple-bind {Q = λ _ d. d.closed ≡ true} _ _ (record { at = λ d k. refl })
          (λ _. Triple-raise e (λ d k. k)))).at
      c refl
