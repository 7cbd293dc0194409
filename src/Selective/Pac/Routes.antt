-- ===== src/Selective/Pac/Routes.antt =====
-- The routes that the PAC script gives to hosts.
use free_net_hub.Prelude.{
  ℕ, ◌≡◌, ◌↔◌, ◌⊎◌, inl, inr, refl, true, List, [], ◌∷◌, ◌++◌, arith, any, Bool-cases,
}
use free_net_hub.Text.{Text, Tables, eq_text}
use free_net_hub.Text.Affix.{In, eq_of_eq_text, eq_text_refl, ends_with_split, ends_with-append}
use free_net_hub.Hosts.Fixed.{IsShaped, lower-shaped}
use free_net_hub.Selective.Domains.Reparse.{drop_final_dot-shaped}
use free_net_hub.Selective.Pac.{socks5, direct, selects, find_proxy}

-- The domain itself, or a name below it.
abbrev pub Below : Text → Text → Type 0
Below host d = (host ≡ d) ⊎ ((sub : Text) × (host ≡ sub ++ (b'.' ∷ d)))

-- One of the domains covers the host.
abbrev pub Covered : List Text → Text → Type 0
Covered ds host = (d : Text) × In d ds × Below host d

selects-Below : (host d : Text) → selects host d ≡ true → Below host d
unfolding selects
selects-Below host d h = elim (Bool-cases (eq_text host d)) [
  | inl same ↦ inl (eq_of_eq_text host d same)
  | inr other ↦ inr (ends_with_split host (b'.' ∷ d) (rw other at h))
]

Below-selects : (host d : Text) → Below host d → selects host d ≡ true
unfolding selects
Below-selects host d (inl e) = rw (e, eq_text_refl d)
Below-selects host d (inr (sub, e)) = rw (e, ends_with-append sub (b'.' ∷ d)) (ground arith)

pub any-Covered : (host : Text) (ds : List Text) → any (selects host) ds ≡ true → Covered ds host
any-Covered host [] h = cc
any-Covered host (d ∷ ds) h = elim (Bool-cases (selects host d)) [
  | inl yes_here ↦ (d, inl refl, selects-Below host d yes_here)
  | inr no_match ↦ let (e, i, b) = any-Covered host ds (rw no_match at h) in (e, inr i, b)
]

pub Covered-any : (host : Text) (ds : List Text) → Covered ds host → any (selects host) ds ≡ true
Covered-any host [] (d, i, b) = absurd i
Covered-any host (e ∷ ds) (d, inl same, b) = rw (Below-selects host e (rw same at b)) refl
Covered-any host (e ∷ ds) (d, inr i, b) = ground (arith, Covered-any host ds (d, i, b))

-- The script sends a host of DNS shape to the SOCKS port exactly when a domain of the list is the
-- host or stands above it, and lets it go direct otherwise: a selected host never goes direct.
pub find_proxy-Covered :
    (t : Tables) (ds : List Text) (port : ℕ) (host : Text)
    → IsShaped host
    → ((find_proxy t ds port host ≡ socks5 port) ↔ Covered ds host)
      × ((find_proxy t ds port host ≡ direct) ↔ (¬ Covered ds host))
unfolding find_proxy
find_proxy-Covered t ds port host h =
    rw (lower-shaped host h t, drop_final_dot-shaped host h)
      (elim (Bool-cases (any (selects host) ds)) [
        | inl found ↦ rw found (
          (λ _. any-Covered host ds found, λ _. refl),
          (λ e. cc, λ n. absurd (n (any-Covered host ds found))),
        )
        | inr missed ↦ rw missed (
          (λ e. cc, λ c. cc (Covered-any host ds c, missed)),
          (λ _ c. cc (Covered-any host ds c, missed), λ _. refl),
        )
      ])
