-- ===== src/NodeHub/Links.antt =====
-- The links of app/nodehub.py: what they are taken apart with. The library's functions on links,
-- base64, JSON and HTML are the fields of a `Web`.
pub mod Transport
pub mod Security
pub mod Schemes
pub mod Uri
pub mod Blob
mod Tests
use free_net_hub.Prelude.{
  ℕ, zero, suc, ◌+◌, ◌-◌, ◌%◌, Bool, true, false, not, ◌&&◌, ◌||◌, Option, none, some, List, [],
  ◌∷◌, ◌++◌, map, length, take, leb, ltb, ◌==◌, is_nil, if◌then◌else◌, Result, ok, err, ◌>>=◌, ◌>>◌,
  get_last, any,
}
use free_net_hub.Text.{Text, text, eq_text, elem, strip, lower, is_space}
use free_net_hub.Json.{Json, str, Items, nil, cons, Dict, Exc, value_error, other_error, Python}
use free_net_hub.NodeHub.Values.{refuse_if}

-- The attributes of what `urlsplit` returns; `port` raises where the link has no valid one.
pub record Url : Type 0 where
  pub username : Option Text
  pub password : Option Text
  pub hostname : Option Text
  pub port : Result Exc (Option ℕ)
  pub query : Text
  pub fragment : Text

-- `unquote`, `urlsplit`, `parse_qs` and `parse_qsl` with blank values kept, `urlencode`,
-- `base64.b64decode`, the decoders "utf-8" and "utf-8-sig" of bytes, `json.loads` and `html.unescape`.
pub record Web : Type 0 where
  pub python : Python
  pub unquote : Text → Text
  pub urlsplit : Text → Result Exc Url
  pub parse_qs : Text → List (Text × List Text)
  pub parse_qsl : Text → List (Text × Text)
  pub urlencode : List (Text × Text) → Text
  pub b64decode : Text → Result Exc (List ℕ)
  pub decode_utf8 : List ℕ → Result Exc Text
  pub decode_utf8_sig : List ℕ → Result Exc Text
  pub loads : Text → Result Exc Json
  pub unescape : Text → Text

-- What `_q` returns: a `dict` from texts to texts.
abbrev pub Query : Type 0
Query = List (Text × Text)

-- `_q`
unfoldable pub query_of : Web → Url → Query
query_of w parts = map (λ row. (row.0, get_last [] row.1)) (w.parse_qs parts.query)

-- `q.get(k) or ""`
unfoldable pub value : Text → Query → Text
unfolding eq_text
value k [] = []
value k ((j, v) ∷ q) = let rest = value k q in if eq_text j k then v else rest

abbrev pub or_text : Text → Text → Text
or_text a b = if is_nil a then b else a

-- `q.get(k1) or q.get(k2) or ... or default`
unfoldable pub first_of : List Text → Text → Query → Text
unfolding value
first_of [] default q = default
first_of (k ∷ keys) default q = or_text (value k q) (first_of keys default q)

abbrev pub filter : (ℕ → Bool) → Text → Text
filter p [] = []
filter p (c ∷ s) = let rest = filter p s in if p c then c ∷ rest else rest

abbrev pub replicate : ℕ → ℕ → Text
replicate zero c = []
replicate (suc n) c = c ∷ replicate n c

abbrev pub url_safe : ℕ → ℕ
url_safe c = if c == b'-' then b'+' else if c == b'_' then b'/' else c

-- What `_b64decode` hands to the decoder.
unfoldable pub b64_text : Text → Text
unfolding is_space
b64_text s =
    let compact = map url_safe (filter (λ c. not (is_space c)) s) in
    compact ++ replicate ((4 - length compact % 4) % 4) b'='

-- `_b64decode`
unfoldable pub b64_bytes : Web → Text → Result Exc (List ℕ)
unfolding b64_text
b64_bytes w s = w.b64decode (b64_text s)

-- `_name`
unfoldable pub name_of : Web → Text → Text → Text
name_of w fragment fallback =
    or_text (take 120 (filter (λ c. leb 32 c) (strip (w.unquote fragment)))) fallback

abbrev pub or_nil : Option Text → Text
or_nil none = []
or_nil (some s) = s

abbrev pub or_zero : Option ℕ → ℕ
or_zero none = 0
or_zero (some n) = n

-- `_host_port`
unfoldable pub host_port : Url → Result Exc (Text × ℕ)
host_port parts = do
  refuse_if (is_nil (or_nil parts.hostname)) "NODE_HOST_PORT_REQUIRED"
  port ← parts.port
  refuse_if (or_zero port == 0) "NODE_HOST_PORT_REQUIRED"
  refuse_if (not (leb 1 (or_zero port) && leb (or_zero port) 65535)) "NODE_PORT_INVALID"
  ok (or_nil parts.hostname, or_zero port)

-- `_truthy` of a text
unfoldable pub says_yes : Web → Text → Bool
unfolding lower strip
says_yes w s =
    elem (lower w.python.tables (strip s)) (text "1" ∷ text "true" ∷ text "yes" ∷ text "on" ∷ [])

-- The shorter test: `s.lower() in ("1", "true", "yes")`.
unfoldable pub says_true : Web → Text → Bool
unfolding lower
says_true w s = elem (lower w.python.tables s) (text "1" ∷ text "true" ∷ text "yes" ∷ [])

-- The parts in front of and behind the first `c`.
unfoldable pub cut_first : ℕ → Text → Option (Text × Text)
cut_first c [] = none
cut_first c (d ∷ s) =
    let rest = cut_first c s in
    if d == c
    then some ([], s)
    else elim rest [ none ↦ none | some pair ↦ some (d ∷ pair.0, pair.1) ]

-- `s.split(c, 1)[0]`
abbrev pub before : ℕ → Text → Text
before c s = elim (cut_first c s) [ none ↦ s | some pair ↦ pair.0 ]

-- The parts in front of and behind the last `c`.
unfoldable pub cut_last : ℕ → Text → Option (Text × Text)
cut_last c [] = none
cut_last c (d ∷ s) =
    let rest = cut_last c s in
    elim rest [
      | some pair ↦ some (d ∷ pair.0, pair.1)
      | none ↦ if d == c then some ([], s) else none
    ]

abbrev pub texts : List Text → Items
texts [] = nil
texts (t ∷ ts) = cons (str t) (texts ts)

-- `[x for x in rows if x]`
abbrev pub filled : List Text → List Text
filled [] = []
filled (t ∷ ts) = let rest = filled ts in if is_nil t then rest else t ∷ rest
