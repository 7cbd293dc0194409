-- ===== src/Json.antt =====
-- Python's dynamic values as the program meets them in JSON, its `dict` with texts for keys, and the
-- built-in functions on them. What the interpreter does beyond that is the record `Python`.
pub mod Keys
use free_net_hub.Prelude.{
  ℕ, zero, suc, ◌+◌, ◌*◌, ◌-◌, Bool, true, false, not, ◌&&◌, ◌||◌, Option, none, some, List, [],
  ◌∷◌, ◌++◌, leb, ◌==◌, length, is_nil, if◌then◌else◌, Result, ok, err,
}
use free_net_hub.Text.{Text, Tables, text, eq_text, is_ascii, strip}
use free_net_hub.Hosts.{is_digit}

pub data ℤ : Type 0 where
  pos : ℕ → ℤ
  negsuc : ℕ → ℤ

mutual
  pub data Json : Type 0 where
    null : Json
    bool : Bool → Json
    int : ℤ → Json
    real : Text → Json
    str : Text → Json
    arr : Items → Json
    obj : Dict → Json

  pub data Items : Type 0 where
    nil : Items
    cons : Json → Items → Items

  -- A `dict` in the order of insertion.
  pub data Dict : Type 0 where
    end : Dict
    field : Text → Json → Dict → Dict

-- What is raised: a `ValueError` with its text, or an exception of another class.
pub data Exc : Type 0 where
  value_error : Text → Exc
  other_error : Exc

-- What the interpreter and its library do with values: `str` of one that is no text, the truth and the
-- `int` of a fractional number, `int` of a text outside ASCII, `json.dumps` with sorted keys, the first
-- 20 hexadecimal digits of the SHA-256 of that, and a name for each class of equal values that are
-- neither texts nor lists nor dicts.
pub record Python : Type 0 where
  pub tables : Tables
  pub repr : Json → Text
  pub real_true : Text → Bool
  pub real_int : Text → Result Exc ℤ
  pub int_other : Text → Option ℤ
  pub dumps : Json → Text
  pub digest : Dict → Text
  pub scalar_key : Json → Text

-- `d.get(k)`, or the default of `d.get(k, v)`
unfoldable pub get_or : Json → Text → Dict → Json
unfolding eq_text
get_or v k end = v
get_or v k (field j w d) = if eq_text j k then w else get_or v k d

unfoldable pub get : Text → Dict → Json
unfolding get_or
get k d = get_or null k d

-- `k in d`
unfoldable pub has_key : Text → Dict → Bool
unfolding eq_text
has_key k end = false
has_key k (field j w d) = eq_text j k || has_key k d

-- `d[k] = v`
unfoldable pub set : Text → Json → Dict → Dict
unfolding eq_text
set k v end = field k v end
set k v (field j w d) = if eq_text j k then field j v d else field j w (set k v d)

abbrev pub is_zero : ℤ → Bool
is_zero (pos zero) = true
is_zero _ = false

abbrev pub no_items : Items → Bool
no_items nil = true
no_items (cons x xs) = false

abbrev pub no_fields : Dict → Bool
no_fields end = true
no_fields (field k v d) = false

-- `bool(v)`
unfoldable pub truthy : Python → Json → Bool
truthy p null = false
truthy p (bool b) = b
truthy p (int n) = not (is_zero n)
truthy p (real r) = p.real_true r
truthy p (str s) = not (is_nil s)
truthy p (arr xs) = not (no_items xs)
truthy p (obj d) = not (no_fields d)

-- `str(v)`
unfoldable pub to_str : Python → Json → Text
to_str p (str s) = s
to_str p v = p.repr v

-- `v or w`
unfoldable pub or_else : Python → Json → Json → Json
unfolding truthy
or_else p v w = if truthy p v then v else w

-- `v is True`
abbrev pub is_true : Json → Bool
is_true (bool b) = b
is_true _ = false

-- `v is False`
abbrev pub is_false : Json → Bool
is_false (bool b) = not b
is_false _ = false

-- `v not in (None, "")`
abbrev pub is_given : Json → Bool
is_given null = false
is_given (str s) = not (is_nil s)
is_given _ = true

-- The digits of a numeral, where a single underscore may stand between two digits; `prior` says
-- whether the last character was a digit.
unfoldable pub digits : Bool → ℕ → Text → Option ℕ
digits prior n [] = if prior then some n else none
digits prior n (c ∷ s) =
    let rest = digits (is_digit c) (if is_digit c then 10 * n + (c - b'0') else n) s in
    if is_digit c || (prior && c == b'_') then rest else none

abbrev pub negate : ℕ → ℤ
negate zero = pos zero
negate (suc n) = negsuc n

abbrev pub map_option : {A B : Type 0} → (A → B) → Option A → Option B
map_option f none = none
map_option f (some a) = some (f a)

-- `int(s)` on a stripped text of ASCII
unfoldable pub numeral : Text → Option ℤ
unfolding digits
numeral [] = none
numeral (c ∷ s) =
    if c == b'-'
    then map_option negate (digits false 0 s)
    else if c == b'+'
    then map_option pos (digits false 0 s)
    else map_option pos (digits false 0 (c ∷ s))

abbrev pub or_value_error : Option ℤ → Result Exc ℤ
or_value_error none = err (value_error (text "invalid literal for int()"))
or_value_error (some n) = ok n

-- `int(v)`
unfoldable pub to_int : Python → Json → Result Exc ℤ
unfolding numeral strip
to_int p null = err other_error
to_int p (bool b) = ok (pos (if b then 1 else 0))
to_int p (int n) = ok n
to_int p (real r) = p.real_int r
to_int p (str s) = or_value_error (if is_ascii s then numeral (strip s) else p.int_other s)
to_int p (arr xs) = err other_error
to_int p (obj d) = err other_error

-- `lo <= n <= hi` for `lo` of at least 1.
abbrev pub in_range : ℕ → ℕ → ℤ → Bool
in_range lo hi (pos n) = leb lo n && leb n hi
in_range lo hi (negsuc n) = false

unfoldable pub length_items : Items → ℕ
length_items nil = 0
length_items (cons x xs) = suc (length_items xs)

unfoldable pub drop_items : ℕ → Items → Items
drop_items zero xs = xs
drop_items (suc n) nil = nil
drop_items (suc n) (cons x xs) = drop_items n xs

abbrev pub chars : Text → Items
chars [] = nil
chars (c ∷ s) = cons (str (c ∷ [])) (chars s)

abbrev pub keys : Dict → Items
keys end = nil
keys (field k v d) = cons (str k) (keys d)

-- `list(v)`
unfoldable pub to_list : Json → Result Exc Items
to_list (arr xs) = ok xs
to_list (str s) = ok (chars s)
to_list (obj d) = ok (keys d)
to_list v = err other_error

-- What a `dict` finds a value by; a list or a `dict` cannot be hashed.
pub data Key : Type 0 where
  named : Text → Key
  scalar : Text → Key

unfoldable pub to_key : Python → Json → Result Exc Key
to_key p (str s) = ok (named s)
to_key p (arr xs) = err other_error
to_key p (obj d) = err other_error
to_key p v = ok (scalar (p.scalar_key v))

-- `max(0, min(64, n))`
abbrev pub clamp : ℕ → ℤ → ℤ
clamp hi (pos n) = if leb n hi then pos n else pos hi
clamp hi (negsuc n) = pos 0
