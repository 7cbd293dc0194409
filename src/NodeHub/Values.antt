-- ===== src/NodeHub/Values.antt =====
-- What the functions of app/nodehub.py have in common: errors by their texts, `or` with a default,
-- and the loops that copy keys from one `dict` to another.
use free_net_hub.Prelude.{
  ℕ, zero, suc, String, Bool, true, false, List, [], ◌∷◌, take, is_nil, if◌then◌else◌, Result, ok,
  err, raise_if,
}
use free_net_hub.Text.{Text, text, strip}
use free_net_hub.Json.{
  Json, int, str, obj, Items, nil, cons, Dict, Exc, value_error, other_error, has_key, Python, ℤ,
  get, set, truthy, to_str, or_else, to_int, is_given,
}

-- `if test: raise ValueError(code)`
abbrev pub refuse_if : Bool → String → Result Exc (Unit {0})
refuse_if test code = raise_if test (value_error (text code))

-- `try: r  except Exception: raise ValueError(code)`
abbrev pub or_error : {A : Type 0} → String → Result Exc A → Result Exc A
or_error code (ok a) = ok a
or_error code (err e) = err (value_error (text code))

-- `str(d.get(k) or default)`
unfoldable pub text_or : Python → Text → Dict → Text → Text
unfolding get to_str or_else
text_or p k d default = to_str p (or_else p (get k d) (str default))

-- `int(d.get(k) or default)`
unfoldable pub int_or : Python → Text → Dict → ℤ → Result Exc ℤ
unfolding get or_else to_int
int_or p k d default = to_int p (or_else p (get k d) (int default))

-- One turn of the loop below.
abbrev pub copy_text : Python → ℕ → Text → Dict → Dict → Dict
copy_text p n k source d =
    if is_given (get k source) then set k (str (take n (to_str p (get k source)))) d else d

-- `for k in keys: if source.get(k) not in (None, ""): d[k] = str(source[k])[:n]`
unfoldable pub copy_texts : Python → ℕ → List Text → Dict → Dict → Dict
copy_texts p n [] source d = d
copy_texts p n (k ∷ keys) source d = copy_texts p n keys source (copy_text p n k source d)

-- `for k in keys: if source.get(k) not in (None, ""): d[k] = source[k]`
unfoldable pub copy_given : List Text → Dict → Dict → Dict
copy_given [] source d = d
copy_given (k ∷ keys) source d =
    copy_given keys source (if is_given (get k source) then set k (get k source) d else d)

-- `for k in keys: if source.get(k): d[k] = source[k]`
unfoldable pub copy_true : Python → List Text → Dict → Dict → Dict
copy_true p [] source d = d
copy_true p (k ∷ keys) source d =
    copy_true p keys source (if truthy p (get k source) then set k (get k source) d else d)

-- `[cut(str(x)) for x in xs if str(x).strip()]`
unfoldable pub nonblank : Python → (Text → Text) → Items → Items
unfolding to_str strip
nonblank p cut nil = nil
nonblank p cut (cons x xs) =
    let rest = nonblank p cut xs in
    if is_nil (strip (to_str p x)) then rest else cons (str (cut (to_str p x))) rest

-- `xs[:n]`
unfoldable pub take_items : ℕ → Items → Items
take_items zero xs = nil
take_items (suc n) nil = nil
take_items (suc n) (cons x xs) = cons x (take_items n xs)

-- `isinstance(v, dict)`, `isinstance(v, list)`
abbrev pub is_obj : Json → Bool
is_obj (obj d) = true
is_obj _ = false

abbrev pub set_if : Bool → Text → Json → Dict → Dict
set_if b k v d = if b then set k v d else d

-- `node[k]`
unfoldable pub need : Text → Dict → Result Exc Json
need k d = if has_key k d then ok (get k d) else err other_error
