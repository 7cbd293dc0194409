-- ===== src/Hosts/Fixed.antt =====
-- A host of the right shape is canonical: lower-casing, stripping, the codec and the removal of a
-- wildcard or of final dots leave it alone.
use free_net_hub.Prelude.{
  ℕ, ◌≤◌, ◌≡◌, ◌≢◌, refl, ap, some, Bool, true, false, not, ◌&&◌, ◌||◌, List, [], ◌∷◌, map, arith,
  ◌==◌, ltb, All, all, length, get_last, is_nil, and-eq_true, Bool-cases, inl, inr,
}
use free_net_hub.Text.{
  Text, Tables, text, starts_with, is_space, lower, lower_char, is_ascii, encode_idna, idna_labels,
  split_on, rstrip, strip, cons_head, keep_unless,
}
use free_net_hub.Text.Split.{Free, IsWord, all-split_on}
use free_net_hub.Text.Strip.{strip-word}
use free_net_hub.Hosts.{is_inner, label_ok, labels, shape_ok}

abbrev pub in_host : ℕ → Bool
in_host c = is_inner c || c == b'.'

inner_of_label : (l : Text) → label_ok l ≡ true → all is_inner l ≡ true
unfolding label_ok
inner_of_label [] h = cc
inner_of_label (c ∷ []) h = ground arith
inner_of_label (c ∷ d ∷ s) h = ground arith

inner_labels : (ls : List Text) → all label_ok ls ≡ true → All (λ w. all is_inner w ≡ true) ls
inner_labels [] h = tt
inner_labels (l ∷ ls) h =
    let (a, b) = and-eq_true (label_ok l) (all label_ok ls) h in
    (inner_of_label l a, inner_labels ls b)

nonempty_labels : (ls : List Text) → all label_ok ls ≡ true → All (λ w. is_nil w ≡ false) ls
unfolding label_ok
nonempty_labels [] h = tt
nonempty_labels ([] ∷ ls) h = cc
nonempty_labels ((c ∷ l) ∷ ls) h =
    (refl, nonempty_labels ls (and-eq_true (label_ok (c ∷ l)) (all label_ok ls) h).1)

codec_label : (l : Text) → label_ok l ≡ true → (not (is_nil l) && ltb (length l) 64) ≡ true
unfolding label_ok
codec_label [] h = cc
codec_label (c ∷ []) h = ground arith
codec_label (c ∷ d ∷ s) h = ground arith

codec_labels : (ls : List Text) → all label_ok ls ≡ true → idna_labels ls ≡ true
unfolding idna_labels
codec_labels [] h = refl
codec_labels (l ∷ []) h = ground (arith, codec_label l)
codec_labels (l ∷ m ∷ ls) h = ground (arith, codec_label l, codec_labels (m ∷ ls))

pub lower-map : (s : Text) → all in_host s ≡ true → map lower_char s ≡ s
lower-map [] h = refl
lower-map (c ∷ s) h = ground (arith, lower-map s)

pub ascii_host : (s : Text) → all in_host s ≡ true → is_ascii s ≡ true
ascii_host [] h = refl
ascii_host (c ∷ s) h = ground (arith, ascii_host s)

no_space : (c : ℕ) → in_host c ≡ true → is_space c ≡ false
unfolding is_space
no_space c h = ground arith

Free-of_space : (s : Text) → all in_host s ≡ true → Free is_space s
Free-of_space [] h = tt
Free-of_space (c ∷ s) h =
    let (a, b) = and-eq_true (in_host c) (all in_host s) h in (no_space c a, Free-of_space s b)

nonempty_tail :
    (c e : ℕ) (ws : List Text)
    → All (λ w. is_nil w ≡ false) (cons_head c (cons_head e ws))
    → All (λ w. is_nil w ≡ false) (cons_head e ws)
nonempty_tail c e [] h = (refl, tt)
nonempty_tail c e (w ∷ ws) h = (refl, h.1)

abbrev NoEmpty : List Text → Type 0
NoEmpty ws = All (λ w. is_nil w ≡ false) ws

past_dot :
    (c e : ℕ) (s : Text) → (e == b'.') ≡ true → NoEmpty (labels (c ∷ e ∷ s)) → NoEmpty (labels s)
unfolding split_on
past_dot c e s dot h = ground arith

past_other :
    (c e : ℕ) (s : Text)
    → (e == b'.') ≡ false
    → NoEmpty (labels (c ∷ e ∷ s))
    → NoEmpty (labels (e ∷ s))
unfolding split_on
past_other c e s other h = ground (arith, nonempty_tail c e (labels s))

-- Where no label is empty, the text does not end with a dot.
pub last_no_dot : (c : ℕ) (s : Text) → NoEmpty (labels (c ∷ s)) → (get_last c s == b'.') ≡ false
last_no_dot c [] h = unfold split_on in ground arith
last_no_dot c (e ∷ []) h = elim (Bool-cases (e == b'.')) [
  | inl dot ↦ unfold split_on in cc ((past_dot c e [] dot h).0)
  | inr other ↦ other
]
last_no_dot c (e ∷ f ∷ r) h = elim (Bool-cases (e == b'.')) [
  | inl dot ↦ last_no_dot f r (past_dot c e (f ∷ r) dot h)
  | inr other ↦ last_no_dot e (f ∷ r) (past_other c e (f ∷ r) other h)
]

rstrip-last :
    (p : ℕ → Bool) (c : ℕ) (s : Text) → p (get_last c s) ≡ false → rstrip p (c ∷ s) ≡ c ∷ s
unfolding rstrip
rstrip-last p c [] h = rw h
rstrip-last p c (d ∷ s) h = ap (keep_unless p c) (rstrip-last p d s h)

-- What `shape_ok` says, and what follows from it for the methods of `str`.
pub record IsShaped (host : Text) : Type 0 where
  pub two : 2 ≤ length (labels host)
  pub twelve : length (labels host) ≤ 12
  pub short : length host ≤ 253
  pub each : all label_ok (labels host) ≡ true

pub shape_ok-IsShaped : (host : Text) → shape_ok host ≡ true → IsShaped host
unfolding shape_ok
shape_ok-IsShaped host h = ground arith

pub IsShaped-shape_ok : (host : Text) → IsShaped host → shape_ok host ≡ true
unfolding shape_ok
IsShaped-shape_ok host h = ground arith

module _ (host : Text) (h : IsShaped host) where
  pub chars_in_host : all in_host host ≡ true
  chars_in_host = all-split_on is_inner b'.' host (inner_labels (labels host) h.each)

  pub no_empty : NoEmpty (labels host)
  no_empty = nonempty_labels (labels host) h.each

  pub lower-shaped : (t : Tables) → lower t host ≡ host
  unfolding lower
  lower-shaped t = rw (ascii_host host chars_in_host) (lower-map host chars_in_host)

pub shaped_ne_nil : (host : Text) → IsShaped host → host ≢ []
unfolding split_on
shaped_ne_nil [] h e = omega (arith, h.two)
shaped_ne_nil (c ∷ s) h e = cc

pub shaped-IsWord : (host : Text) → IsShaped host → IsWord is_space host
shaped-IsWord host h = (shaped_ne_nil host h, Free-of_space host (chars_in_host host h))

pub strip-shaped : (host : Text) → IsShaped host → strip host ≡ host
strip-shaped host h = strip-word host (shaped-IsWord host h)

pub encode_idna-shaped : (host : Text) (t : Tables) → IsShaped host → encode_idna t host ≡ some host
encode_idna-shaped [] t h = absurd (shaped_ne_nil [] h refl)
encode_idna-shaped (c ∷ s) t h =
    unfold encode_idna in
    rw (ascii_host (c ∷ s) (chars_in_host (c ∷ s) h), codec_labels (labels (c ∷ s)) h.each)

pub rstrip_dots-shaped : (host : Text) → IsShaped host → rstrip (λ c. c == b'.') host ≡ host
rstrip_dots-shaped [] h = absurd (shaped_ne_nil [] h refl)
rstrip_dots-shaped (c ∷ s) h =
    rstrip-last (λ c. c == b'.') c s (last_no_dot c s (no_empty (c ∷ s) h))

pub no_wildcard : (host : Text) → IsShaped host → starts_with host (text "*.") ≡ false
no_wildcard [] h = absurd (shaped_ne_nil [] h refl)
no_wildcard (c ∷ s) h = unfold starts_with in ground (arith, chars_in_host (c ∷ s) h)
