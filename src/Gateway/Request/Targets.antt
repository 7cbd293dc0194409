-- ===== src/Gateway/Request/Targets.antt =====
-- Which hosts a request may name.
use free_net_hub.Prelude.{
  ℕ, ◌≡◌, ◌≢◌, ◌↔◌, ◌∙◌, refl, true, false, not, List, [], ◌∷◌, any, all, Bool-cases, inl, inr,
  arith, ok, err, if◌then◌else◌,
}
use free_net_hub.Text.{Text, Tables, is_ascii}
use free_net_hub.Hosts.{label_ok, labels}
use free_net_hub.Hosts.Fixed.{
  IsShaped, ascii_host, chars_in_host, lower-map, rstrip_dots-shaped, shaped_ne_nil,
}
use free_net_hub.Selective.Pac.{selects, find_proxy, socks5}
use free_net_hub.Selective.Pac.Routes.{Covered, any-Covered, Covered-any, find_proxy-Covered}
use free_net_hub.Gateway.Socket.{host_not_dns, target_not_allowed}
use free_net_hub.Gateway.Request.{decode, under, check_host, safe_host}

all_of_any : (ls : List Text) → any (λ l. not (label_ok l)) ls ≡ false → all label_ok ls ≡ true
all_of_any [] h = refl
all_of_any (l ∷ ls) h = ground (arith, all_of_any ls)

any_of_all : (ls : List Text) → all label_ok ls ≡ true → any (λ l. not (label_ok l)) ls ≡ false
any_of_all [] h = refl
any_of_all (l ∷ ls) h = ground (arith, any_of_all ls)

check_host-IsShaped :
    (host : Text) (ds : List Text) {h : Text}
    → check_host host ds ≡ ok h
    → IsShaped host × (h ≡ host) × (any (under host) ds ≡ true)
unfolding check_host
check_host-IsShaped host ds e = (
  record {
    two = ground arith;
    twelve = ground arith;
    short = ground arith;
    each = all_of_any (labels host) (ground arith);
  },
  ground arith,
  ground arith,
)

IsShaped-check_host :
    (host : Text) (ds : List Text)
    → IsShaped host
    → host ≢ []
    → check_host host ds ≡ (if any (under host) ds then ok host else err target_not_allowed)
unfolding check_host
IsShaped-check_host [] ds h n = absurd (n refl)
IsShaped-check_host (c ∷ s) ds h n =
    ground (arith, any_of_all (labels (c ∷ s)) h.each, h.two, h.twelve, h.short)

pub safe_host-shaped :
    (host : Text) (ds : List Text)
    → IsShaped host
    → safe_host host ds ≡ (if any (under host) ds then ok host else err target_not_allowed)
unfolding safe_host
safe_host-shaped host ds h =
    rw
      (
        ascii_host host (chars_in_host host h),
        lower-map host (chars_in_host host h),
        rstrip_dots-shaped host h,
      )
      (IsShaped-check_host host ds h (shaped_ne_nil host h))

-- The host that `_safe_host` lets through is a DNS name that a domain of the list covers.
pub safe_host-Covered :
    (raw : Text) (ds : List Text) {host : Text}
    → safe_host raw ds ≡ ok host
    → IsShaped host × Covered ds host
unfolding safe_host
safe_host-Covered raw ds {host} e = elim (Bool-cases (is_ascii raw)) [
  | inl ascii ↦
      let (shaped, same, found) = check_host-IsShaped (decode raw) ds (rw ascii at e) in
      rw same (shaped, any-Covered (decode raw) ds (unfold under selects in found))
  | inr other ↦ let bad : err host_not_dns ≡ ok host = rw other at e in cc
]

-- The gateway lets a host of DNS shape through exactly when the PAC script for the same domains
-- sends it to the proxy.
pub safe_host-find_proxy :
    (t : Tables) (host : Text) (ds : List Text) (port : ℕ)
    → IsShaped host
    → (safe_host host ds ≡ ok host) ↔ (find_proxy t ds port host ≡ socks5 port)
safe_host-find_proxy t host ds port h =
    let (to_proxy, _) = find_proxy-Covered t ds port host h in
    (
      λ e. to_proxy.1 (safe_host-Covered host ds e).1,
      λ e.
          let found : any (under host) ds ≡ true =
            unfold under selects in Covered-any host ds (to_proxy.0 e) in
          safe_host-shaped host ds h ∙ rw found refl,
    )
