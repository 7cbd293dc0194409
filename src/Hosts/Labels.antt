-- ===== src/Hosts/Labels.antt =====
-- The pattern of a label against a description of it that names no position but the ends.
use free_net_hub.Prelude.{
  ℕ, ◌≤◌, ◌≡◌, ◌≢◌, ◌↔◌, refl, true, [], ◌∷◌, arith, all, length, get_last, and-eq_true,
}
use free_net_hub.Text.{Text}
use free_net_hub.Hosts.{is_inner, label_ok}

abbrev first_or : ℕ → Text → ℕ
first_or d [] = d
first_or d (c ∷ s) = c

-- 1 to 63 lower-case letters, digits and hyphens, with no hyphen at either end.
pub record IsLabel (l : Text) : Type 0 where
  pub short : length l ≤ 63
  pub chars : all is_inner l ≡ true
  pub head_alnum : first_or b'-' l ≢ b'-'
  pub last_alnum : get_last b'-' l ≢ b'-'

inner_last : (c : ℕ) (s : Text) → all is_inner (c ∷ s) ≡ true → is_inner (get_last c s) ≡ true
inner_last c [] h = ground arith
inner_last c (d ∷ s) h = inner_last d s (and-eq_true (is_inner c) (all is_inner (d ∷ s)) h).1

label_ok-IsLabel : (l : Text) → label_ok l ≡ true → IsLabel l
unfolding label_ok
label_ok-IsLabel [] h = cc
label_ok-IsLabel (c ∷ []) h = ground arith
label_ok-IsLabel (c ∷ d ∷ s) h = ground arith

IsLabel-label_ok : (l : Text) → IsLabel l → label_ok l ≡ true
unfolding label_ok
IsLabel-label_ok [] h = absurd (h.head_alnum refl)
IsLabel-label_ok (c ∷ []) h = ground arith
IsLabel-label_ok (c ∷ d ∷ s) h = ground (arith, inner_last d s)

-- The pattern matches exactly the labels: 1 to 63 lower-case letters, digits and hyphens, with no
-- hyphen at either end.
pub label_ok_iff : (l : Text) → (label_ok l ≡ true) ↔ IsLabel l
label_ok_iff l = (label_ok-IsLabel l, IsLabel-label_ok l)
