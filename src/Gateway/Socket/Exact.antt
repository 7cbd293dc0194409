-- ===== src/Gateway/Socket/Exact.antt =====
-- `_exact` on the bytes of the segments.
use free_net_hub.Prelude.{
  take-append_short, drop-append_short, take-append_long, drop-append_long, drop_filled, ℕ, zero,
  suc, ◌+◌, ◌-◌, ◌≤◌, ◌<◌, ◌≡◌, refl, sym, Bool, true, false, List, [], ◌∷◌, ◌++◌, leb, ◌==◌,
  length, take, drop, is_nil, All, if◌then◌else◌, ok, err, Result, arith, Bool-cases, inl, inr,
  length-append, append_assoc, append-nil, ◌∙◌, leb→le, length-take, ==_iff, le→leb,
}
use free_net_hub.Prelude.Exec.{pure, raise, ◌>>=◌}
use free_net_hub.Text.{Text}
use free_net_hub.Gateway.Socket.{
  GatewayError, os_error, truncated, Conn, S, recv, exact_loop, exact,
}

-- The bytes of the segments.
abbrev pub bytes : List Text → Text
bytes [] = []
bytes (segment ∷ rest) = segment ++ bytes rest

-- No segment is empty, as an empty one would be the end.
abbrev pub IsFilled : List Text → Type 0
IsFilled segments = All (λ s. is_nil s ≡ false) segments

-- What a reader of `size` bytes gets of a stream of bytes.
abbrev pub delivered : ℕ → Bool → Text → Result GatewayError Text
delivered size broken stream =
    if leb size (length stream)
    then ok (take size stream)
    else err (if broken then os_error else truncated)

-- How the loop ends from `found`, of which `missing` bytes are missing.
pub record Reads (c : Conn) (found : Text) (missing : ℕ) (out : Result GatewayError Text × Conn)
    : Type 0 where
  pub rest : List Text
  pub gives : out ≡ (
    (if leb missing (length (bytes c.incoming))
        then ok (found ++ take missing (bytes c.incoming))
        else err (if c.broken then os_error else truncated)),
    record c { incoming = rest },
  )
  pub left : bytes rest ≡ drop missing (bytes c.incoming)
  pub filled : IsFilled rest

==-differ : (a b k : ℕ) → a + suc k ≡ b → (a == b) ≡ false
==-differ a b k h = ground arith

leb_sub : (a b k : ℕ) → a ≤ k → leb k (a + b) ≡ leb (k - a) b
leb_sub a b k h = ground arith

exact_loop-end :
    (fuel size : ℕ) (found : Text) (c : Conn)
    → length found ≡ size
    → exact_loop fuel size found c ≡ (ok found, c)
unfolding exact_loop pure
exact_loop-end zero size found c h = rw (((==_iff (length found) size).1) h) refl
exact_loop-end (suc fuel) size found c h = rw (((==_iff (length found) size).1) h) refl

-- One pass, with `missing` bytes to find.
exact_loop-pass :
    (fuel size missing : ℕ) (found : Text) (c : Conn)
    → length found + suc missing ≡ size
    → exact_loop (suc fuel) size found c
      ≡ (recv (suc missing) >>= λ segment.
            if is_nil segment then raise truncated else exact_loop fuel size (found ++ segment))
          c
unfolding exact_loop
exact_loop-pass fuel size missing found c h =
    let m : size - length found ≡ suc missing = omega arith in
    rw (==-differ (length found) size missing h, m) refl

done :
    (fuel size : ℕ) (found : Text) (c : Conn)
    → length found ≡ size
    → IsFilled c.incoming
    → Reads c found 0 (exact_loop fuel size found c)
done fuel size found c h i = record {
  rest = c.incoming;
  gives =
      rw (le→leb 0 (length (bytes c.incoming)) (omega arith), append-nil found)
        (exact_loop-end fuel size found c h);
  left = refl;
  filled = i;
}

bind-ok :
    {A B : Type 0} (m : S A) (k : A → S B) (c : Conn) {a : A} {d : Conn}
    → m c ≡ (ok a, d)
    → (m >>= k) c ≡ k a d
unfolding ◌>>=◌
bind-ok m k c e = rw e refl

bind-err :
    {A B : Type 0} (m : S A) (k : A → S B) (c : Conn) {x : GatewayError} {d : Conn}
    → m c ≡ (err x, d)
    → (m >>= k) c ≡ (err x, d)
unfolding ◌>>=◌
bind-err m k c e = rw e refl

abbrev conn : List Text → Bool → Text → Bool → Bool → Conn
conn segments broken sent writable closed = record {
  incoming = segments;
  broken = broken;
  sent = sent;
  writable = writable;
  closed = closed;
}

none_left : (missing : ℕ) → leb (suc missing) 0 ≡ false
none_left missing = ground arith

ended :
    (fuel size missing : ℕ) (found : Text) (broken : Bool) (sent : Text) (writable closed : Bool)
    → length found + suc missing ≡ size
    → Reads
        (conn [] broken sent writable closed)
        found
        (suc missing)
        (exact_loop (suc fuel) size found (conn [] broken sent writable closed))
unfolding recv raise ◌>>=◌
ended fuel size missing found true sent writable closed h = record {
  rest = [];
  gives =
      rw (none_left missing)
        (exact_loop-pass fuel size missing found (conn [] true sent writable closed) h);
  left = refl;
  filled = tt;
}
ended fuel size missing found false sent writable closed h = record {
  rest = [];
  gives =
      rw (none_left missing)
        (exact_loop-pass fuel size missing found (conn [] false sent writable closed) h);
  left = refl;
  filled = tt;
}

recv-whole :
    (size : ℕ) (segment : Text) (rest : List Text) (broken : Bool) (sent : Text)
    (writable closed : Bool)
    → leb (length segment) size ≡ true
    → recv size (conn (segment ∷ rest) broken sent writable closed)
      ≡ (ok segment, conn rest broken sent writable closed)
unfolding recv
recv-whole size segment rest broken sent writable closed h = rw h refl

recv-part :
    (size : ℕ) (segment : Text) (rest : List Text) (broken : Bool) (sent : Text)
    (writable closed : Bool)
    → leb (length segment) size ≡ false
    → recv size (conn (segment ∷ rest) broken sent writable closed)
      ≡ (ok (take size segment), conn (drop size segment ∷ rest) broken sent writable closed)
unfolding recv
recv-part size segment rest broken sent writable closed h = rw h refl

-- The segment is used up, and the loop goes on.
whole :
    (fuel size missing : ℕ) (found segment : Text) (rest : List Text) (broken : Bool) (sent : Text)
    (writable closed : Bool)
    → length found + suc missing ≡ size
    → leb (length segment) (suc missing) ≡ true
    → is_nil segment ≡ false
    → Reads
        (conn rest broken sent writable closed)
        (found ++ segment)
        (suc missing - length segment)
        (exact_loop fuel size (found ++ segment) (conn rest broken sent writable closed))
    → Reads
        (conn (segment ∷ rest) broken sent writable closed)
        found
        (suc missing)
        (exact_loop (suc fuel) size found (conn (segment ∷ rest) broken sent writable closed))
whole fuel size missing found segment rest broken sent writable closed h short full r =
    let fits : length segment ≤ suc missing = leb→le _ _ short in
    record {
      rest = r.rest;
      gives =
          rw
            (
              length-append segment (bytes rest),
              leb_sub (length segment) (length (bytes rest)) (suc missing) fits,
              take-append_short (suc missing) segment (bytes rest) fits,
              ← append_assoc found segment (take (suc missing - length segment) (bytes rest)),
            )
            (exact_loop-pass fuel size missing found _ h
              ∙ bind-ok (recv (suc missing)) _ _
                  (recv-whole (suc missing) segment rest broken sent writable closed short)
              ∙ rw full r.gives);
      left = r.left ∙ sym (drop-append_short (suc missing) segment (bytes rest) fits);
      filled = r.filled;
    }

-- The segment has more bytes than are missing.
part :
    (fuel size missing : ℕ) (found : Text) (b : ℕ) (segment : Text) (rest : List Text)
    (broken : Bool) (sent : Text) (writable closed : Bool)
    → length found + suc missing ≡ size
    → leb (length (b ∷ segment)) (suc missing) ≡ false
    → IsFilled rest
    → Reads
        (conn ((b ∷ segment) ∷ rest) broken sent writable closed)
        found
        (suc missing)
        (exact_loop (suc fuel) size found (conn ((b ∷ segment) ∷ rest) broken sent writable closed))
part fuel size missing found b segment rest broken sent writable closed h long i =
    let over : suc missing < suc (length segment) = ground arith in
    record {
      rest = drop missing segment ∷ rest;
      gives =
          rw
            (
              length-append (b ∷ segment) (bytes rest),
              le→leb (suc missing) (suc (length segment) + length (bytes rest)) (omega arith),
              take-append_long missing segment (bytes rest) (omega arith),
            )
            (exact_loop-pass fuel size missing found _ h
              ∙ bind-ok (recv (suc missing)) _ _
                  (recv-part (suc missing) (b ∷ segment) rest broken sent writable closed long)
              ∙ exact_loop-end fuel size (found ++ (b ∷ take missing segment)) _ (
                  omega (
                    arith,
                    length-append found (b ∷ take missing segment),
                    length-take missing segment,
                  )));
      left = sym (drop-append_long missing segment (bytes rest) (omega arith));
      filled = (drop_filled missing segment (omega arith), i);
    }

exact_loop-Reads :
    (fuel size missing : ℕ) (found : Text) (segments : List Text) (broken : Bool) (sent : Text)
    (writable closed : Bool)
    → length found + missing ≡ size
    → missing ≤ fuel
    → IsFilled segments
    → Reads
        (conn segments broken sent writable closed)
        found
        missing
        (exact_loop fuel size found (conn segments broken sent writable closed))
exact_loop-Reads fuel size zero found segments broken sent writable closed h f i =
    done fuel size found _ (omega arith) i
exact_loop-Reads zero size (suc missing) found segments broken sent writable closed h f i =
    absurd (omega arith)
exact_loop-Reads (suc fuel) size (suc missing) found [] broken sent writable closed h f i =
    ended fuel size missing found broken sent writable closed h
exact_loop-Reads (suc fuel) size (suc missing) found ([] ∷ rest) broken sent writable closed h f i =
    cc
exact_loop-Reads (suc fuel) size (suc missing) found ((b ∷ segment) ∷ rest) broken sent writable
      closed h f i =
    elim (Bool-cases (leb (length (b ∷ segment)) (suc missing))) [
      | inl short ↦
          let fits : length (b ∷ segment) ≤ suc missing = leb→le _ _ short in
          whole fuel size missing found (b ∷ segment) rest broken sent writable closed h short refl
            (exact_loop-Reads fuel size (suc missing - length (b ∷ segment))
              (found ++ (b ∷ segment)) rest broken sent writable closed
              (omega (arith, length-append found (b ∷ segment))) (omega arith) i.1)
      | inr long ↦
          part fuel size missing found b segment rest broken sent writable closed h long i.1
    ]

-- `_exact` gives the next `size` bytes and leaves the bytes behind them, or raises if fewer are to
-- come, however the bytes are cut into segments that are not empty; it never runs out of passes.
pub exact-Reads : (size : ℕ) (c : Conn) → IsFilled c.incoming → Reads c [] size (exact size c)
unfolding exact
exact-Reads size c i =
    exact_loop-Reads size size size [] c.incoming c.broken c.sent c.writable c.closed (omega arith)
      (omega arith) i
