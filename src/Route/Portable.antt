-- ===== src/Route/Portable.antt =====
-- The lists of domains that both tunnels read alike.
use free_net_hub.Prelude.{◌≡◌, refl, ◌∙◌, List, [], ◌∷◌, All, ok, Untyped, typed}
use free_net_hub.Text.{Text, Tables, is_space, join}
use free_net_hub.Text.Split.{split_runs-join}
use free_net_hub.Text.Strip.{strip-join}
use free_net_hub.Hosts.Fixed.{
  IsShaped-shape_ok, shaped_ne_nil, lower-shaped, encode_idna-shaped, no_wildcard,
  rstrip_dots-shaped,
}
use free_net_hub.Selective.Domains.{
  is_separator, append_new, parse_domains, drop_wildcard, domain_limit, domains_empty,
}
use free_net_hub.Selective.Domains.Canonical.{IsAdmissible, parse_domains-IsCanonical}
use free_net_hub.Selective.Domains.Reparse.{admit-admissible, words_of, parse_domains-canonical}
use free_net_hub.Route.{screen_token, admit_token, collect_tokens, normalize_domains}

screen_token-admissible : (host : Text) → IsAdmissible host → screen_token host ≡ ok host
unfolding screen_token
screen_token-admissible host h =
    rw (IsShaped-shape_ok host h.shaped, h.not_local, h.not_ip, h.not_public) refl

-- A domain that the Linux module admits stands for itself here.
admit_token-alike : (t : Tables) (d : Text) → IsAdmissible d → admit_token t d ≡ ok d
unfolding admit_token drop_wildcard
admit_token-alike t d h =
    rw
      (
        lower-shaped d h.shaped t,
        no_wildcard d h.shaped,
        rstrip_dots-shaped d h.shaped,
        encode_idna-shaped d t h.shaped,
      )
      (screen_token-admissible d h)

collect_tokens-alike :
    (t : Tables) (rows ds : List Text)
    → All IsAdmissible ds
    → collect_tokens t rows ds ≡ free_net_hub.Selective.Domains.collect t rows ds
unfolding collect_tokens free_net_hub.Selective.Domains.collect
collect_tokens-alike t rows [] h = refl
collect_tokens-alike t rows ([] ∷ ds) h = absurd (shaped_ne_nil [] h.0.shaped refl)
collect_tokens-alike t rows ((c ∷ raw) ∷ ds) h =
    rw
      (
        admit_token-alike t (c ∷ raw) h.0,
        admit-admissible t (c ∷ raw) h.0,
        collect_tokens-alike t (append_new rows (c ∷ raw)) ds h.1,
      )
      refl

-- Both modules read a list of admissible domains alike, one on each line, also where it is too long.
alike :
    (t : Tables) (d : Text) (ds : List Text)
    → All IsAdmissible (d ∷ ds)
    → normalize_domains t (typed (join b'\n' (d ∷ ds)))
      ≡ parse_domains t (typed (join b'\n' (d ∷ ds)))
unfolding normalize_domains parse_domains
alike t d ds h =
    let (spaces, seps) = words_of (d ∷ ds) h in
    rw
      (
        strip-join b'\n' d ds spaces,
        split_runs-join is_separator b'\n' d ds (unfold is_separator is_space in refl) seps,
        collect_tokens-alike t [] (d ∷ ds) h,
      )
      refl

-- A list of domains that the Linux tunnel has accepted, written one on each line, is accepted by the
-- Windows tunnel, which keeps every domain and the order.
pub normalize_domains-parse_domains :
    (t : Tables) (value : Untyped Text) {ds : List Text}
    → parse_domains t value ≡ ok ds
    → normalize_domains t (typed (join b'\n' ds)) ≡ ok ds
normalize_domains-parse_domains t value {ds = []} h =
    absurd ((parse_domains-IsCanonical t value h).1 refl)
normalize_domains-parse_domains t value {ds = d ∷ ds} h =
    let (canonical, full) = parse_domains-IsCanonical t value h in
    alike t d ds canonical.admissible ∙ parse_domains-canonical t (d ∷ ds) canonical full
