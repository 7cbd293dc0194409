-- ===== src/Gateway/Request/RoundTrip.antt =====
-- Requests as clients write them.
use mathlib.Core.Path.{subst}
use free_net_hub.Prelude.{
  ℕ, ◌≤◌, ◌≡◌, refl, sym, ap, ◌∙◌, Bool, true, false, List, [], ◌∷◌, ◌++◌, ok, length, take, drop,
  leb, ◌==◌, any, if◌then◌else◌, arith, le→leb, length-append, append_assoc,
}
use free_net_hub.Prelude.Exec.{lift, raise_when, except, continue, ◌>>=◌, ◌>>◌}
use free_net_hub.Prelude.Faults.{Triple, Ends}
use free_net_hub.Prelude.Faults.Rules.{Triple-bind, Triple-pure}
use free_net_hub.Text.{Text, eq_text}
use free_net_hub.Hosts.Fixed.{IsShaped}
use free_net_hub.Selective.Pac.{selects}
use free_net_hub.Selective.Pac.Routes.{Covered, Covered-any}
use free_net_hub.Gateway.Request.Targets.{safe_host-shaped}
use free_net_hub.Gateway.Socket.{GatewayError, Conn, S, sendall, exact}
use free_net_hub.Gateway.Socket.Exact.{bytes, IsFilled, exact-Reads}
use free_net_hub.Gateway.Request.{
  read_methods, read_target, refuse_when, under, admit_host, read_request, safe_host,
}

-- The bytes to come, in segments that are not empty, and those answered so far.
pub record Stream (stream sent : Text) (c : Conn) : Type 0 where
  pub comes : bytes c.incoming ≡ stream
  pub filled : IsFilled c.incoming
  pub answered : c.sent ≡ sent
  pub open_ : c.writable ≡ true

module _ {A : Type 0} where
  pub take-length-append : (xs ys : List A) → take (length xs) (xs ++ ys) ≡ xs
  take-length-append [] ys = refl
  take-length-append (x ∷ xs) ys = ap (λ r. x ∷ r) (take-length-append xs ys)

  pub drop-length-append : (xs ys : List A) → drop (length xs) (xs ++ ys) ≡ ys
  drop-length-append [] ys = refl
  drop-length-append (x ∷ xs) ys = drop-length-append xs ys

if_true : {A : Type 0} (b : Bool) (x y : A) → b ≡ true → (if b then x else y) ≡ x
if_true true x y h = refl
if_true false x y h = cc

-- `_exact` gives the next bytes.
record Gets (xs ys sent : Text) (c : Conn) : Type 0 where
  left : Conn
  gives : exact (length xs) c ≡ (ok xs, left)
  stream : Stream ys sent left

exact-Gets : (xs ys sent : Text) (c : Conn) → Stream (xs ++ ys) sent c → Gets xs ys sent c
exact-Gets xs ys sent c p =
    let r = exact-Reads (length xs) c p.filled in
    let enough : leb (length xs) (length (bytes c.incoming)) ≡ true =
      rw p.comes (le→leb (length xs) (length (xs ++ ys)) (omega (arith, length-append xs ys))) in
    record {
      left = record c { incoming = r.rest };
      gives =
          r.gives
          ∙ ap (λ x. (x, record c { incoming = r.rest }))
              (if_true _ _ _ enough
                ∙ ap ok (ap (take (length xs)) p.comes ∙ take-length-append xs ys));
      stream = record {
        comes = r.left ∙ ap (drop (length xs)) p.comes ∙ drop-length-append xs ys;
        filled = r.filled;
        answered = p.answered;
        open_ = p.open_;
      };
    }

pub run-exact_last :
    (xs ys sent : Text) {R : GatewayError → Conn → Type 0}
    → Triple (Stream (xs ++ ys) sent) (exact (length xs)) (λ _. Stream ys sent) R
run-exact_last xs ys sent {R} = record {
  at = λ c p. let g = exact-Gets xs ys sent c p in rw g.gives g.stream;
}

module _ {A : Type 0} {Q : A → Conn → Type 0} {R : GatewayError → Conn → Type 0} where
  pub run-exact :
      (xs ys sent : Text) (f : Text → S A)
      → Triple (Stream ys sent) (f xs) Q R
      → Triple (Stream (xs ++ ys) sent) (exact (length xs) >>= f) Q R
  unfolding ◌>>=◌
  run-exact xs ys sent f t = record {
    at = λ c p. let g = exact-Gets xs ys sent c p in rw g.gives (t.at g.left g.stream);
  }

  pub run-sendall :
      (ys sent data_ : Text) (m : S A)
      → Triple (Stream ys (sent ++ data_)) m Q R
      → Triple (Stream ys sent) (sendall data_ >> m) Q R
  unfolding ◌>>=◌ sendall
  run-sendall ys sent data_ m t = record {
    at = λ c p.
        let sent_all : sendall data_ c ≡ (ok tt, record c { sent = c.sent ++ data_ }) =
          if_true _ _ _ p.open_ in
        subst (λ x. Ends Q R (continue x.0 (λ _. m) x.1)) (sym sent_all)
          (t.at (record c { sent = c.sent ++ data_ })
            (record {
              comes = p.comes;
              filled = p.filled;
              answered = ap (λ a. a ++ data_) p.answered;
              open_ = p.open_;
            }));
  }

  pub run-raise_when :
      {P : Conn → Type 0} (b : Bool) (e : GatewayError) (m : S A)
      → b ≡ false
      → Triple P m Q R
      → Triple P (raise_when b e >> m) Q R
  unfolding raise_when ◌>>=◌
  run-raise_when true e m h t = cc
  run-raise_when false e m h t = record { at = λ c p. t.at c p }

  pub run-refuse :
      {P : Conn → Type 0} (b : Bool) (code : ℕ) (e : GatewayError) (m : S A)
      → b ≡ false
      → Triple P m Q R
      → Triple P (refuse_when b code e >> m) Q R
  unfolding refuse_when ◌>>=◌
  run-refuse true code e m h t = cc
  run-refuse false code e m h t = record { at = λ c p. t.at c p }

-- What a client sends to reach the HTTPS port of a host.
abbrev pub hello : Text → Text
hello methods = 5 ∷ length methods ∷ methods

abbrev pub connect : Text → Text
connect host = 5 ∷ 1 ∷ 0 ∷ 3 ∷ length host ∷ (host ++ (1 ∷ 187 ∷ []))

run-sendall_last :
    (ys sent data_ : Text) {R : GatewayError → Conn → Type 0}
    → Triple (Stream ys sent) (sendall data_) (λ _. Stream ys (sent ++ data_)) R
unfolding sendall
run-sendall_last ys sent data_ {R} = record {
  at = λ c p.
      subst (Ends (λ _. Stream ys (sent ++ data_)) R) (sym (if_true _ _ _ p.open_)) (record {
        comes = p.comes;
        filled = p.filled;
        answered = ap (λ a. a ++ data_) p.answered;
        open_ = p.open_;
      });
}

read_methods-Triple :
    (methods ys sent : Text)
    → 1 ≤ length methods
    → length methods ≤ 8
    → any (λ m. m == 0) methods ≡ true
    → Triple
        (Stream (hello methods ++ ys) sent)
        read_methods
        (λ _. Stream ys (sent ++ (5 ∷ 0 ∷ [])))
        (λ _ _. ⊥)
unfolding read_methods eq_text
read_methods-Triple methods ys sent few many noauth =
    run-exact (5 ∷ []) (length methods ∷ (methods ++ ys)) sent _ (
      run-raise_when _ _ _ refl (
        run-exact (length methods ∷ []) (methods ++ ys) sent _ (
          run-raise_when _ _ _ (ground arith)
            (run-exact methods ys sent _ (rw noauth (run-sendall_last ys sent (5 ∷ 0 ∷ [])))))))

read_target-Triple :
    (host ys sent : Text)
    → 3 ≤ length host
    → Triple
        (Stream (connect host ++ ys) sent)
        read_target
        (λ raw c. (raw ≡ host) × Stream ys sent c)
        (λ _ _. ⊥)
unfolding read_target eq_text
read_target-Triple host ys sent long =
    run-exact (5 ∷ 1 ∷ 0 ∷ 3 ∷ []) (length host ∷ ((host ++ (1 ∷ 187 ∷ [])) ++ ys)) sent _ (
      run-refuse _ 7 _ _ refl (
        run-exact (length host ∷ []) ((host ++ (1 ∷ 187 ∷ [])) ++ ys) sent _ (
          run-refuse _ 8 _ _ (ground arith) (
            rw (append_assoc host (1 ∷ 187 ∷ []) ys) (
              run-exact host (1 ∷ 187 ∷ ys) sent _ (
                run-exact (1 ∷ 187 ∷ []) ys sent _
                  (run-refuse _ 2 _ _ refl (Triple-pure host (λ c p. (refl, p))))))))))

admit-Covered :
    (host : Text) (domains : List Text) (d : Conn)
    → IsShaped host
    → Covered domains host
    → admit_host host domains d ≡ (ok host, d)
unfolding admit_host except lift
admit-Covered host domains d shaped covered =
    let found : any (under host) domains ≡ true =
      unfold under selects in Covered-any host domains covered in
    let fine : safe_host host domains ≡ ok host =
      safe_host-shaped host domains shaped ∙ rw found refl in
    rw fine refl

-- A request that a client writes for a covered host of DNS shape and at least 3 characters is
-- understood, in any segments that are not empty: the answer to the greeting is sent, the host is
-- returned, and the bytes behind the request are left for the tunnel. The client offers 1 to 8
-- methods, one of them "no authentication", and the connection can be written to.
pub read_request_round_trip :
    (methods host more sent : Text) (domains : List Text) (c : Conn)
    → 1 ≤ length methods
    → length methods ≤ 8
    → any (λ m. m == 0) methods ≡ true
    → 3 ≤ length host
    → IsShaped host
    → Covered domains host
    → Stream (hello methods ++ (connect host ++ more)) sent c
    → Ends
        (λ got d. (got ≡ host) × Stream more (sent ++ (5 ∷ 0 ∷ [])) d)
        (λ _ _. ⊥)
        (read_request domains c)
unfolding read_request
read_request_round_trip methods host more sent domains c few many noauth long shaped covered
      stream =
    (Triple-bind {Q' = λ got d. (got ≡ host) × Stream more (sent ++ (5 ∷ 0 ∷ [])) d} read_methods _
        (read_methods-Triple methods (connect host ++ more) sent few many noauth)
        (λ _.
          Triple-bind read_target _ (read_target-Triple host more (sent ++ (5 ∷ 0 ∷ [])) long)
            (λ raw. record {
              at = λ d p. rw (p.0, admit-Covered host domains d shaped covered) (refl, p.1);
            }))).at
      c stream
