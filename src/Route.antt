-- ===== src/Route.antt =====
-- The tunnel for chosen sites of app/selective_route_windows.py; here its lists of domains.
pub mod Portable
pub mod Registry
pub mod Pac
pub mod Status
pub mod Disable
mod Tests
use free_net_hub.Prelude.{
  ◌++◌, Bool, true, false, not, Option, none, some, List, [], ◌∷◌, ltb, ◌==◌, all, length, drop,
  if◌then◌else◌, Result, ok, err, ◌>>=◌, ◌>>◌, raise_if, Untyped, typed, ill_typed, is_nil,
}
use free_net_hub.Text.{
  Text, Tables, text, starts_with, strip, lower, rstrip, encode_idna, split_runs, join,
}
use free_net_hub.Hosts.{labels, shape_ok, has_local_suffix, is_numeric, is_public_suffix}
use free_net_hub.Selective.Domains.{
  DomainError, domains_not_text, domain_invalid, local_domain_denied, ip_denied,
  public_suffix_denied, domain_limit, domains_empty, is_separator, drop_wildcard, append_new,
  or_raise,
}

-- The errors are told apart as those of `parse_domains` are; none has an excerpt here.

-- The guards of the loop on a decoded host. The second test of the digits repeats the first.
unfoldable pub screen_token : Text → Result DomainError Text
screen_token host = do
  raise_if (not (shape_ok host)) (domain_invalid [])
  raise_if (has_local_suffix host) local_domain_denied
  raise_if (all is_numeric (labels host)) ip_denied
  raise_if (is_public_suffix (labels host)) public_suffix_denied
  raise_if (all is_numeric (labels host)) ip_denied
  ok host

-- The body of the loop up to `rows.append`.
unfoldable pub admit_token : Tables → Text → Result DomainError Text
admit_token t token = do
  host ←
      or_raise (encode_idna t (rstrip (λ c. c == b'.') (drop_wildcard (lower t token))))
        (domain_invalid [])
  screen_token host

-- The loop over the tokens, with the domains found so far.
unfoldable pub collect_tokens : Tables → List Text → List Text → Result DomainError (List Text)
collect_tokens t rows [] = ok rows
collect_tokens t rows ([] ∷ tokens) = collect_tokens t rows tokens
collect_tokens t rows ((c ∷ token) ∷ tokens) = do
  host ← admit_token t (c ∷ token)
  let more = append_new rows host
  raise_if (ltb 64 (length more)) domain_limit
  collect_tokens t more tokens

unfoldable pub normalize_domains : Tables → Untyped Text → Result DomainError (List Text)
normalize_domains t ill_typed = err domains_not_text
normalize_domains t (typed value) = do
  rows ← collect_tokens t [] (split_runs is_separator (strip value))
  raise_if (is_nil rows) domains_empty
  ok rows

-- `normalize_domains(current) if str(current).strip() else []`
unfoldable pub normalize_current : Tables → Untyped Text → Result DomainError (List Text)
normalize_current t ill_typed = normalize_domains t ill_typed
normalize_current t (typed current) =
    if is_nil (strip current) then ok [] else normalize_domains t (typed current)

unfoldable pub merge_domains : Tables → Untyped Text → Untyped Text → Result DomainError (List Text)
merge_domains t current extra = do
  existing ← normalize_current t current
  addition ← normalize_domains t extra
  normalize_domains t (typed (join b'\n' (existing ++ addition)))
