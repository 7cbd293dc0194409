-- ===== src/Selective/Pac/Size.antt =====
-- The length of the script.
use free_net_hub.Prelude.{
  ℕ, zero, suc, ◌+◌, ◌*◌, ◌/◌, ◌%◌, ◌≤◌, ◌<◌, ◌≡◌, List, [], ◌∷◌, ◌++◌, arith, All, length,
  length-append,
}
use free_net_hub.Text.{Text, decimal, decimal_digits}
use free_net_hub.Selective.Domains.Canonical.{IsAdmissible, IsCanonical}
use free_net_hub.Selective.Pac.{
  quote, dump_items, dump, script, script_head, script_loop, script_tail,
}

length-quote : (d : Text) → length (quote d) ≡ length d + 2
length-quote d = omega (arith, length-append d (b'"' ∷ []))

length-dump_items :
    (ds : List Text) → All IsAdmissible ds → length (dump_items ds) ≤ 256 * length ds
unfolding dump_items
length-dump_items [] h = omega arith
length-dump_items (d ∷ []) h = omega (arith, length-quote d, h.0.shaped.short)
length-dump_items (d ∷ e ∷ ds) h = omega (
  arith,
  length-quote d,
  h.0.shaped.short,
  length-append (quote d) (b',' ∷ dump_items (e ∷ ds)),
  length-dump_items (e ∷ ds) h.1,
)

length-dump : (ds : List Text) → IsCanonical ds → length (dump ds) ≤ 16386
unfolding dump
length-dump ds h =
    omega (
      arith,
      length-append (dump_items ds) (b']' ∷ []),
      length-dump_items ds h.admissible,
      h.bounded,
    )

abbrev pow10 : ℕ → ℕ
pow10 zero = 10
pow10 (suc k) = 10 * pow10 k

length-decimal_digits : (k f n : ℕ) → n < pow10 k → length (decimal_digits f n) ≤ suc k
unfolding decimal_digits
length-decimal_digits k zero n h = omega arith
length-decimal_digits zero (suc f) n h = ground arith
length-decimal_digits (suc k) (suc f) n h = ground (
  arith,
  length-decimal_digits k f (n / 10),
  length-append (decimal_digits f (n / 10)) ((b'0' + n % 10) ∷ []),
)

length-decimal : (port : ℕ) → port ≤ 65535 → length (decimal port) ≤ 5
unfolding decimal
length-decimal port h = length-decimal_digits 4 port port (omega arith)

-- For a canonical list of domains and a port up to 65535 the PAC file has fewer than 32768
-- characters, which is what the check of the local server reads.
pub length-script :
    (ds : List Text) (port : ℕ) → IsCanonical ds → port ≤ 65535 → length (script ds port) < 32768
unfolding script script_head script_loop script_tail
length-script ds port h p = omega (
  arith,
  length-append script_head (dump ds ++ (script_loop ++ (decimal port ++ script_tail))),
  length-append (dump ds) (script_loop ++ (decimal port ++ script_tail)),
  length-append script_loop (decimal port ++ script_tail),
  length-append (decimal port) script_tail,
  length-dump ds h,
  length-decimal port p,
)
