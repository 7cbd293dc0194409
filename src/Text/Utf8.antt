-- ===== src/Text/Utf8.antt =====
-- The length of a text in UTF-8.
use free_net_hub.Prelude.{ℕ, ◌+◌, ◌&&◌, [], ◌∷◌, leb, ltb, if◌then◌else◌}
use free_net_hub.Text.{Text}

-- `len(c.encode("utf-8", "ignore"))`: a surrogate has no encoding and is dropped.
abbrev pub utf8_bytes : ℕ → ℕ
utf8_bytes c =
    if ltb c 0x80
    then 1
    else if ltb c 0x800
    then 2
    else if leb 0xd800 c && leb c 0xdfff
    then 0
    else if ltb c 0x10000
    then 3
    else 4

-- `len(s.encode("utf-8", "ignore"))`
unfoldable pub utf8_length : Text → ℕ
utf8_length [] = 0
utf8_length (c ∷ s) = utf8_bytes c + utf8_length s
