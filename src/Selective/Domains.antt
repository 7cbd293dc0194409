-- ===== src/Selective/Domains.antt =====
-- `parse_domains` and `merge_domains` of crossplatform/linux/selective_tunnel.py.
pub mod Canonical
pub mod Reparse
pub mod Merge
use free_net_hub.Prelude.{
  ℕ, ◌++◌, Bool, true, false, not, ◌||◌, Option, none, some, List, [], ◌∷◌, leb, ltb, ◌==◌, all,
  length, drop, take, if◌then◌else◌, Result, ok, err, ◌>>=◌, ◌>>◌, raise_if, Untyped, typed,
  ill_typed, is_nil,
}
use free_net_hub.Text.{
  Text, Tables, text, elem, starts_with, is_space, strip, lower, encode_idna, split_runs, join,
}
use free_net_hub.Hosts.{labels, shape_ok, has_local_suffix, is_numeric, is_public_suffix}

-- The `ValueError`s of `parse_domains`, with the excerpt that `SELECTIVE_DOMAIN_INVALID` may carry.
pub data DomainError : Type 0 where
  domains_not_text local_domain_denied ip_denied public_suffix_denied domain_limit domains_empty :
      DomainError
  domain_invalid : Text → DomainError

-- The class `[,\s;]` of the separators.
unfoldable pub is_separator : ℕ → Bool
unfolding is_space
is_separator c = (c == b',' || c == b';') || is_space c

-- `if domain.endswith("."): domain = domain[:-1]`
unfoldable pub drop_final_dot : Text → Text
drop_final_dot [] = []
drop_final_dot (c ∷ []) = if c == b'.' then [] else c ∷ []
drop_final_dot (c ∷ d ∷ s) = c ∷ drop_final_dot (d ∷ s)

-- `if domain.startswith("*."): domain = domain[2:]`
unfoldable pub drop_wildcard : Text → Text
unfolding starts_with
drop_wildcard s = if starts_with s (text "*.") then drop 2 s else s

abbrev pub or_raise : {A : Type 0} → Option A → DomainError → Result DomainError A
or_raise none e = err e
or_raise (some a) e = ok a

-- The guards of the loop on a decoded domain.
unfoldable pub screen : Text → Text → Result DomainError Text
screen raw domain = do
  raise_if (not (shape_ok domain)) (domain_invalid (take 80 raw))
  raise_if (has_local_suffix domain || starts_with domain (text "localhost.")) local_domain_denied
  raise_if (all is_numeric (labels domain)) ip_denied
  raise_if (is_public_suffix (labels domain)) public_suffix_denied
  ok domain

-- The body of the loop up to `result.append`: one part of the text becomes a domain.
unfoldable pub admit : Tables → Text → Result DomainError Text
admit t raw = do
  domain ←
      or_raise (encode_idna t (drop_final_dot (drop_wildcard (strip (lower t raw)))))
        (domain_invalid [])
  screen raw domain

-- `if domain not in result: result.append(domain)`
unfoldable pub append_new : List Text → Text → List Text
append_new result domain = if elem domain result then result else result ++ (domain ∷ [])

-- The loop over the parts, with the domains found so far.
unfoldable pub collect : Tables → List Text → List Text → Result DomainError (List Text)
collect t result [] = ok result
collect t result ([] ∷ parts) = collect t result parts
collect t result ((c ∷ raw) ∷ parts) = do
  domain ← admit t (c ∷ raw)
  let result' = append_new result domain
  raise_if (ltb 64 (length result')) domain_limit
  collect t result' parts

unfoldable pub parse_domains : Tables → Untyped Text → Result DomainError (List Text)
parse_domains t ill_typed = err domains_not_text
parse_domains t (typed value) = do
  result ← collect t [] (split_runs is_separator (strip value))
  raise_if (is_nil result) domains_empty
  ok result

-- `parse_domains(current) if str(current).strip() else []`; what is no text prints as one that is
-- not blank.
unfoldable pub parse_current : Tables → Untyped Text → Result DomainError (List Text)
parse_current t ill_typed = parse_domains t ill_typed
parse_current t (typed current) =
    if is_nil (strip current) then ok [] else parse_domains t (typed current)

unfoldable pub merge_domains : Tables → Untyped Text → Untyped Text → Result DomainError (List Text)
merge_domains t current extra = do
  existing ← parse_current t current
  addition ← parse_domains t extra
  parse_domains t (typed (join b'\n' (existing ++ addition)))
