-- ===== src/Gateway/Request/Segments.antt =====
-- `_read_request` and the handshake on connections that differ in where their bytes are cut.
use mathlib.Core.Path.{subst}
use free_net_hub.Prelude.{
  ℕ, ◌≡◌, refl, sym, ap, ◌∙◌, Bool, true, false, List, ◌++◌, Result, ok, err, length, take, drop,
  leb, if◌then◌else◌,
}
use free_net_hub.Prelude.Exec.{pure, raise, lift, raise_when, except, caught, continue, ◌>>=◌, ◌>>◌}
use free_net_hub.Text.{Text}
use free_net_hub.Gateway.Socket.{GatewayError, os_error, truncated, Conn, S, sendall, exact}
use free_net_hub.Gateway.Socket.Exact.{bytes, IsFilled, exact-Reads}
use free_net_hub.Gateway.Request.{
  read_methods, read_target, refuse_when, reply, admit_host, read_request, safe_host,
}
use free_net_hub.Gateway.Upstream.{request_bytes, skip_address, handshake}

-- Two connections that differ only in where the bytes to come are cut.
pub record Same (c d : Conn) : Type 0 where
  pub stream : bytes c.incoming ≡ bytes d.incoming
  pub filled_left : IsFilled c.incoming
  pub filled_right : IsFilled d.incoming
  pub broken : c.broken ≡ d.broken
  pub sent : c.sent ≡ d.sent
  pub writable : c.writable ≡ d.writable
  pub closed : c.closed ≡ d.closed

abbrev pub SameRun :
    {A : Type 0} → Result GatewayError A × Conn → Result GatewayError A × Conn → Type 0
SameRun x y = (x.0 ≡ y.0) × Same x.1 y.1

-- A program that cannot tell them apart.
pub record Blind {A : Type 0} (m : S A) : Type 0 where
  pub same : (c d : Conn) → Same c d → SameRun (m c) (m d)

module _ {A : Type 0} where
  Blind-pure : (a : A) → Blind (pure a)
  unfolding pure
  Blind-pure a = record { same = λ c d s. (refl, s) }

  Blind-raise : (e : GatewayError) → Blind {A = A} (raise e)
  unfolding raise
  Blind-raise e = record { same = λ c d s. (refl, s) }

  Blind-lift : (r : Result GatewayError A) → Blind (lift r)
  unfolding lift
  Blind-lift r = record { same = λ c d s. (refl, s) }

  Blind-if : (b : Bool) (m k : S A) → Blind m → Blind k → Blind (if b then m else k)
  Blind-if true m k x y = x
  Blind-if false m k x y = y

module _ {A B : Type 0} where
  continue_same :
      (x y : Result GatewayError A × Conn) (f : A → S B)
      → SameRun x y
      → ((a : A) → Blind (f a))
      → SameRun (continue x.0 f x.1) (continue y.0 f y.1)
  continue_same (ok a, c) (ok b, d) f (e, s) h = let ab : a ≡ b = cc in rw ab ((h b).same c d s)
  continue_same (ok a, c) (err b, d) f (e, s) h = cc
  continue_same (err a, c) (ok b, d) f (e, s) h = cc
  continue_same (err a, c) (err b, d) f (e, s) h = (cc, s)

  Blind-bind : (m : S A) (f : A → S B) → Blind m → ((a : A) → Blind (f a)) → Blind (m >>= f)
  unfolding ◌>>=◌
  Blind-bind m f x y = record { same = λ c d s. continue_same (m c) (m d) f (x.same c d s) y }

module _ {A : Type 0} where
  caught_same :
      (x y : Result GatewayError A × Conn) (f : GatewayError → S A)
      → SameRun x y
      → ((e : GatewayError) → Blind (f e))
      → SameRun (caught f x) (caught f y)
  caught_same (ok a, c) (ok b, d) f (e, s) h = (e, s)
  caught_same (ok a, c) (err b, d) f (e, s) h = cc
  caught_same (err a, c) (ok b, d) f (e, s) h = cc
  caught_same (err a, c) (err b, d) f (e, s) h = let ab : a ≡ b = cc in rw ab ((h b).same c d s)

  Blind-except :
      (m : S A) (f : GatewayError → S A)
      → Blind m
      → ((e : GatewayError) → Blind (f e))
      → Blind (except m f)
  unfolding except
  Blind-except m f x y = record { same = λ c d s. caught_same (m c) (m d) f (x.same c d s) y }

Blind-exact : (size : ℕ) → Blind (exact size)
Blind-exact size = record {
  same = λ c d s.
      let rc = exact-Reads size c s.filled_left in
      let rd = exact-Reads size d s.filled_right in
      (
        ap (λ x. x.0) rc.gives
            ∙ ap
                (λ st.
                  if leb size (length st)
                  then ok (take size st)
                  else err (if c.broken then os_error else truncated))
                s.stream
            ∙ ap
                (λ b.
                  if leb size (length (bytes d.incoming))
                  then ok (take size (bytes d.incoming))
                  else err (if b then os_error else truncated))
                s.broken
            ∙ sym (ap (λ x. x.0) rd.gives),
        subst (λ x. Same x (exact size d).1) (sym (ap (λ x. x.1) rc.gives))
            (subst (λ y. Same (record c { incoming = rc.rest }) y) (sym (ap (λ x. x.1) rd.gives))
              (record {
                stream = rc.left ∙ ap (drop size) s.stream ∙ sym rd.left;
                filled_left = rc.filled;
                filled_right = rd.filled;
                broken = s.broken;
                sent = s.sent;
                writable = s.writable;
                closed = s.closed;
              })),
      );
}

sendall-Same :
    (c d : Conn) (data_ : Text) (w v : Bool)
    → w ≡ v
    → Same c d
    → SameRun
        (if w then (ok tt, record c { sent = c.sent ++ data_ }) else (err os_error, c))
        (if v then (ok tt, record d { sent = d.sent ++ data_ }) else (err os_error, d))
sendall-Same c d data_ true true e s = (
  refl,
  record {
    stream = s.stream;
    filled_left = s.filled_left;
    filled_right = s.filled_right;
    broken = s.broken;
    sent = ap (λ t. t ++ data_) s.sent;
    writable = s.writable;
    closed = s.closed;
  },
)
sendall-Same c d data_ true false e s = cc
sendall-Same c d data_ false true e s = cc
sendall-Same c d data_ false false e s = (refl, s)

Blind-sendall : (data_ : Text) → Blind (sendall data_)
unfolding sendall
Blind-sendall data_ = record {
  same = λ c d s. sendall-Same c d data_ c.writable d.writable s.writable s;
}

Blind-raise_when : (b : Bool) (e : GatewayError) → Blind (raise_when b e)
unfolding raise_when
Blind-raise_when true e = record { same = λ c d s. (refl, s) }
Blind-raise_when false e = record { same = λ c d s. (refl, s) }

Blind-reply : (code : ℕ) → Blind (reply code)
unfolding reply
Blind-reply code = Blind-sendall _

reply-raise : {A : Type 0} (code : ℕ) (e : GatewayError) → Blind {A = A} (do reply code; raise e)
reply-raise code e = Blind-bind _ _ (Blind-reply code) (λ _. Blind-raise e)

Blind-refuse_when : (b : Bool) (code : ℕ) (e : GatewayError) → Blind (refuse_when b code e)
unfolding refuse_when
Blind-refuse_when b code e = Blind-if b _ _ (reply-raise code e) (Blind-pure tt)

Blind-read_methods : Blind read_methods
unfolding read_methods
Blind-read_methods = Blind-bind _ _ (Blind-exact 1) (λ version.
    Blind-bind _ _ (Blind-raise_when _ _) (λ _. Blind-bind _ _ (Blind-exact 1) (λ count.
      Blind-bind _ _ (Blind-raise_when _ _) (λ _. Blind-bind _ _ (Blind-exact _) (λ methods.
        Blind-if _ _ _ (Blind-bind _ _ (Blind-sendall _) (λ _. Blind-raise _))
          (Blind-sendall _))))))

Blind-read_target : Blind read_target
unfolding read_target
Blind-read_target = Blind-bind _ _ (Blind-exact 4) (λ header.
    Blind-bind _ _ (Blind-refuse_when _ 7 _) (λ _. Blind-bind _ _ (Blind-exact 1) (λ count.
      Blind-bind _ _ (Blind-refuse_when _ 8 _) (λ _. Blind-bind _ _ (Blind-exact _) (λ raw.
        Blind-bind _ _ (Blind-exact 2)
          (λ port. Blind-bind _ _ (Blind-refuse_when _ 2 _) (λ _. Blind-pure raw)))))))

Blind-read_request : (domains : List Text) → Blind (read_request domains)
unfolding read_request admit_host
Blind-read_request domains = Blind-bind _ _ Blind-read_methods (λ _.
    Blind-bind _ _ Blind-read_target
      (λ raw. Blind-except _ _ (Blind-lift (safe_host raw domains)) (λ e. reply-raise 2 e)))

Blind-skip_address : (kind : ℕ) → Blind (skip_address kind)
unfolding skip_address
Blind-skip_address kind = Blind-if _ _ _ (Blind-exact 4) (
    Blind-if _ _ _ (Blind-exact 16)
      (Blind-if _ _ _ (Blind-bind _ _ (Blind-exact 1) (λ count. Blind-exact _)) (Blind-raise _)))

Blind-request_bytes : (host : Text) (port : ℕ) → Blind (request_bytes host port)
unfolding request_bytes
Blind-request_bytes host port =
    Blind-bind _ _ (Blind-raise_when _ _)
      (λ _. Blind-bind _ _ (Blind-raise_when _ _) (λ _. Blind-pure _))

Blind-handshake : (host : Text) (port : ℕ) → Blind (handshake host port)
unfolding handshake
Blind-handshake host port = Blind-bind _ _ (Blind-sendall _) (λ _.
    Blind-bind _ _ (Blind-exact 2) (λ chosen. Blind-bind _ _ (Blind-raise_when _ _) (λ _.
      Blind-bind _ _ (Blind-request_bytes host port) (λ request.
        Blind-bind _ _ (Blind-sendall _) (λ _. Blind-bind _ _ (Blind-exact 4) (λ header.
          Blind-bind _ _ (Blind-raise_when _ _) (λ _.
            Blind-bind _ _ (Blind-skip_address _)
              (λ _. Blind-bind _ _ (Blind-exact 2) (λ _. Blind-pure tt)))))))))

-- Two connections that bring the same bytes in segments that are not empty, however they are cut,
-- and that agree otherwise, give the same host or the same exception, get the same answers, and are
-- left with the same bytes to come.
pub read_request_segments :
    (domains : List Text) (c d : Conn)
    → Same c d
    → SameRun (read_request domains c) (read_request domains d)
read_request_segments domains = (Blind-read_request domains).same

-- The same for the handshake with the upstream: where the upstream's replies are cut changes neither
-- the outcome nor the bytes left for the tunnel.
pub handshake_segments :
    (host : Text) (port : ℕ) (c d : Conn)
    → Same c d
    → SameRun (handshake host port c) (handshake host port d)
handshake_segments host port = (Blind-handshake host port).same
