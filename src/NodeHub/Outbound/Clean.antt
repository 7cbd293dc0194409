-- ===== src/NodeHub/Outbound/Clean.antt =====
-- Outbounds without keys that reach beyond the proxy, at their top or at any depth.
use free_net_hub.Prelude.{
  ◌≡◌, refl, Bool, true, not, ◌&&◌, [], ◌∷◌, Bool-cases, inl, inr, and-eq_true,
}
use free_net_hub.Text.{Text, text, eq_text, elem, ends_with}
use free_net_hub.Json.{
  ℤ, Json, null, str, int, bool, arr, obj, Items, nil, cons, Dict, end, field, get_or, set,
}
use free_net_hub.Json.Keys.{only}

-- Keys that name no local file, no other outbound to go through and no network interface.
unfoldable pub harmless : Text → Bool
unfolding eq_text ends_with elem
harmless k =
    not (ends_with k (text "_path"))
    && not (
        elem k
          (text "detour" ∷ text "dialer_proxy" ∷ text "bind_interface" ∷ text "routing_mark" ∷ []))

-- Every key is harmless, and every value passes the test.
abbrev pub clean : (Json → Bool) → Dict → Bool
clean v end = true
clean v (field k x d) = (harmless k && v x) && clean v d

-- Every value passes the test.
abbrev pub values : (Json → Bool) → Dict → Bool
values v end = true
values v (field k x d) = v x && values v d

unfoldable mutual
  -- No dictionary in the value, however deep, has a key that is not harmless.
  pub deep : Json → Bool
  deep (arr xs) = deep_items xs
  deep (obj d) = deep_dict d
  deep _ = true

  pub deep_items : Items → Bool
  deep_items nil = true
  deep_items (cons x xs) = deep x && deep_items xs

  pub deep_dict : Dict → Bool
  deep_dict end = true
  deep_dict (field k x d) = (harmless k && deep x) && deep_dict d

-- A test that what the program writes itself passes.
pub record Atoms (v : Json → Bool) : Type 0 where
  pub empty : v null ≡ true
  pub words : (s : Text) → v (str s) ≡ true
  pub number : (n : ℤ) → v (int n) ≡ true
  pub truth : (b : Bool) → v (bool b) ≡ true

module _ (v : Json → Bool) where
  pub clean-set :
      (k : Text) (x : Json) (d : Dict)
      → clean v d ≡ true
      → harmless k ≡ true
      → v x ≡ true
      → clean v (set k x d) ≡ true
  unfolding set
  clean-set k x end h e f = rw (e, f) refl
  clean-set k x (field j w d) h e f =
      let (a, b) = and-eq_true (harmless j && v w) (clean v d) h in
      let (c, _) = and-eq_true (harmless j) (v w) a in
      elim (Bool-cases (eq_text j k)) [
        | inl same ↦ rw (same, c, f, b) refl
        | inr other ↦ rw (other, a, clean-set k x d b e f) refl
      ]

  pub values-get_or :
      (default : Json) (k : Text) (d : Dict)
      → values v d ≡ true
      → v default ≡ true
      → v (get_or default k d) ≡ true
  unfolding get_or
  values-get_or default k end h e = e
  values-get_or default k (field j w d) h e =
      let (a, b) = and-eq_true (v w) (values v d) h in
      elim (Bool-cases (eq_text j k)) [
        | inl same ↦ rw same a
        | inr other ↦ rw other (values-get_or default k d b e)
      ]

-- Any value passes.
pub anything : Json → Bool
anything x = true

pub anything-Atoms : Atoms anything
unfolding anything
anything-Atoms = record { empty = refl; words = λ s. refl; number = λ n. refl; truth = λ b. refl }

pub values-anything : (d : Dict) → values anything d ≡ true
unfolding anything
values-anything end = refl
values-anything (field k x d) = values-anything d

pub clean-only : (d : Dict) → clean anything d ≡ true → only harmless d ≡ true
unfolding anything
clean-only end h = refl
clean-only (field k x d) h =
    let (a, b) = and-eq_true (harmless k && true) (clean anything d) h in
    let (c, _) = and-eq_true (harmless k) true a in rw (c, clean-only d b) refl

pub deep-Atoms : Atoms deep
unfolding deep
deep-Atoms = record { empty = refl; words = λ s. refl; number = λ n. refl; truth = λ b. refl }
