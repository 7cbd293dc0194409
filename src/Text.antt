-- ===== src/Text.antt =====
-- What the program uses of Python's `str`, over the list of its code points. On ASCII the methods
-- are written out; for other characters `lower` and the "idna" codec read the tables of Unicode,
-- which the interpreter brings and which are the fields of a `Tables`.
pub mod Split
pub mod Strip
pub mod Affix
pub mod Utf8
use Prim.Native.Char.{code}
use free_net_hub.Prelude.{
  ℕ, zero, suc, ◌+◌, ◌-◌, ◌/◌, ◌%◌, String, Bool, true, false, ◌&&◌, ◌||◌, Option, none, some, List,
  [], ◌∷◌, ◌++◌, map, length, leb, ltb, ◌==◌, if◌then◌else◌, any, all, is_nil, not,
}

abbrev pub Text : Type 0
Text = List ℕ

-- The text of a literal.
abbrev pub text : String → Text
text String.[] = []
text (String.◌∷◌ c s) = code c ∷ text s

-- `a == b` on texts.
unfoldable pub eq_text : Text → Text → Bool
eq_text [] [] = true
eq_text [] (y ∷ ys) = false
eq_text (x ∷ xs) [] = false
eq_text (x ∷ xs) (y ∷ ys) = x == y && eq_text xs ys

-- `a in rows` for a list of texts.
unfoldable pub elem : Text → List Text → Bool
unfolding eq_text
elem a rows = any (λ b. eq_text a b) rows

-- `s.startswith(p)`
unfoldable pub starts_with : Text → Text → Bool
starts_with s [] = true
starts_with [] (c ∷ p) = false
starts_with (d ∷ s) (c ∷ p) = d == c && starts_with s p

-- `s.endswith(p)`
unfoldable pub ends_with : Text → Text → Bool
unfolding starts_with eq_text
ends_with [] p = eq_text [] p
ends_with (c ∷ s) p = eq_text (c ∷ s) p || ends_with s p

-- `c.isspace()`, which is also `\s` of a pattern over `str`.
unfoldable pub is_space : ℕ → Bool
is_space c =
    (leb 9 c && leb c 13)
    || ((leb 28 c && leb c 32)
        || (c == 0x85
            || (c == 0xa0
                || (c == 0x1680
                    || ((leb 0x2000 c && leb c 0x200a)
                        || ((leb 0x2028 c && leb c 0x2029)
                            || (c == 0x202f || (c == 0x205f || c == 0x3000))))))))

unfoldable pub lstrip : Text → Text
unfolding is_space
lstrip [] = []
lstrip (c ∷ s) = let rest = lstrip s in if is_space c then rest else c ∷ s

abbrev pub keep_unless : (ℕ → Bool) → ℕ → Text → Text
keep_unless p c [] = if p c then [] else c ∷ []
keep_unless p c (d ∷ r) = c ∷ d ∷ r

-- `s.rstrip(chars)` for a class of characters.
unfoldable pub rstrip : (ℕ → Bool) → Text → Text
rstrip p [] = []
rstrip p (c ∷ s) = keep_unless p c (rstrip p s)

-- `s.strip()`
unfoldable pub strip : Text → Text
unfolding lstrip rstrip
strip s = rstrip is_space (lstrip s)

abbrev pub cons_head : ℕ → List Text → List Text
cons_head c [] = (c ∷ []) ∷ []
cons_head c (w ∷ ws) = (c ∷ w) ∷ ws

-- `s.split(c)`
unfoldable pub split_on : ℕ → Text → List Text
split_on sep [] = [] ∷ []
split_on sep (c ∷ s) = let rest = split_on sep s in if c == sep then [] ∷ rest else cons_head c rest

abbrev pub starts_run : (ℕ → Bool) → Text → Bool
starts_run p [] = false
starts_run p (c ∷ s) = p c

-- `re.split("[...]+", s)` for a class of characters: a run of separators is one boundary.
unfoldable pub split_runs : (ℕ → Bool) → Text → List Text
split_runs p [] = [] ∷ []
split_runs p (c ∷ s) =
    let rest = split_runs p s in
    if p c then (if starts_run p s then rest else [] ∷ rest) else cons_head c rest

-- `sep.join(rows)`
unfoldable pub join : ℕ → List Text → Text
join sep [] = []
join sep (w ∷ []) = w
join sep (w ∷ v ∷ ws) = w ++ (sep ∷ join sep (v ∷ ws))

pub record Tables : Type 0 where
  pub lower_other : Text → Text
  pub upper_other : Text → Text
  pub idna_other : Text → Option Text

abbrev pub is_ascii : Text → Bool
is_ascii s = all (λ c. ltb c 128) s

abbrev pub lower_char : ℕ → ℕ
lower_char c = if leb b'A' c && leb c b'Z' then c + 32 else c

-- `s.lower()`
unfoldable pub lower : Tables → Text → Text
lower t s = if is_ascii s then map lower_char s else t.lower_other s

abbrev pub upper_char : ℕ → ℕ
upper_char c = if leb b'a' c && leb c b'z' then c - 32 else c

-- `s.upper()`
unfoldable pub upper : Tables → Text → Text
upper t s = if is_ascii s then map upper_char s else t.upper_other s

-- `str(n)` for a number, with fuel for its digits; `n` itself is enough, as each digit divides by 10.
unfoldable pub decimal_digits : ℕ → ℕ → Text
decimal_digits zero n = (b'0' + n % 10) ∷ []
decimal_digits (suc f) n =
    let rest = decimal_digits f (n / 10) in
    if ltb n 10 then (b'0' + n) ∷ [] else rest ++ ((b'0' + n % 10) ∷ [])

unfoldable pub decimal : ℕ → Text
unfolding decimal_digits
decimal n = decimal_digits n n

-- The labels that the codec lets through: only the last may be empty, none has 64 bytes.
unfoldable pub idna_labels : List Text → Bool
idna_labels [] = true
idna_labels (l ∷ []) = ltb (length l) 64
idna_labels (l ∷ m ∷ ls) = not (is_nil l) && (ltb (length l) 64 && idna_labels (m ∷ ls))

-- `s.encode("idna").decode("ascii")`; `none` is a `UnicodeError`.
unfoldable pub encode_idna : Tables → Text → Option Text
unfolding split_on idna_labels
encode_idna t [] = some []
encode_idna t (c ∷ s) =
    if is_ascii (c ∷ s)
    then (if idna_labels (split_on b'.' (c ∷ s)) then some (c ∷ s) else none)
    else t.idna_other (c ∷ s)
