-- ===== src/Hosts.antt =====
-- Tests on host names that the modules of the program repeat: the pattern of a DNS label
-- (DOMAIN_RE, DOMAIN_LABEL, LABEL and HOST_LABEL are one pattern), the local suffixes, and the
-- broad public suffixes.
pub mod Labels
pub mod Fixed
pub mod Address
use free_net_hub.Prelude.{
  ℕ, ◌+◌, String, Bool, true, false, not, ◌&&◌, ◌||◌, List, [], ◌∷◌, map, arith, leb, ◌==◌, any,
  all, length, get_last, is_nil,
}
use free_net_hub.Text.{Text, text, eq_text, elem, ends_with, split_on}

abbrev pub is_digit : ℕ → Bool
is_digit c = leb b'0' c && leb c b'9'

abbrev pub is_alnum : ℕ → Bool
is_alnum c = (leb b'a' c && leb c b'z') || is_digit c

abbrev pub is_inner : ℕ → Bool
is_inner c = is_alnum c || c == b'-'

-- `^[a-z0-9](?:[a-z0-9-]{0,61}[a-z0-9])?$` under `fullmatch`.
unfoldable pub label_ok : Text → Bool
label_ok [] = false
label_ok (c ∷ []) = is_alnum c
label_ok (c ∷ d ∷ s) =
    is_alnum c && (leb (length (d ∷ s)) 62 && (all is_inner (d ∷ s) && is_alnum (get_last d s)))

-- `host.split(".")`
abbrev pub labels : Text → List Text
labels host = split_on b'.' host

-- `x.isdigit()` on ASCII
unfoldable pub is_numeric : Text → Bool
is_numeric s = not (is_nil s) && all is_digit s

local_suffixes : List Text
local_suffixes =
    text ".local" ∷ text ".internal" ∷ text ".localhost" ∷ text ".invalid" ∷ text ".test" ∷ []

unfoldable pub has_local_suffix : Text → Bool
unfolding local_suffixes
has_local_suffix host = any (λ p. ends_with host p) local_suffixes

second_levels : List Text
second_levels =
    text "co" ∷ text "com" ∷ text "org" ∷ text "net" ∷ text "gov" ∷ text "ac" ∷ text "edu" ∷ []

-- A pair of labels such as `co.uk`, below which independent sites stand.
unfoldable pub is_public_suffix : List Text → Bool
unfolding second_levels
is_public_suffix (a ∷ b ∷ []) = elem a second_levels && length b == 2
is_public_suffix _ = false

-- `len(labels)` and `len(host)` in range and each label a match: the guard that precedes the others.
unfoldable pub shape_ok : Text → Bool
unfolding label_ok
shape_ok host =
    leb 2 (length (labels host))
    && (leb (length (labels host)) 12 && (leb (length host) 253 && all label_ok (labels host)))
