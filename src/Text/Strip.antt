-- ===== src/Text/Strip.antt =====
-- `strip` leaves a text alone that neither begins nor ends with a space.
use free_net_hub.Prelude.{ℕ, ◌≡◌, ◌≢◌, refl, ap, Bool, List, [], ◌∷◌, ◌++◌, arith, All}
use free_net_hub.Text.{Text, is_space, lstrip, rstrip, strip, join, keep_unless}
use free_net_hub.Text.Split.{Free, IsWord}

module _ (p : ℕ → Bool) where
  pub rstrip-word : (w : Text) → Free p w → rstrip p w ≡ w
  unfolding rstrip
  rstrip-word [] h = refl
  rstrip-word (c ∷ []) h = ground arith
  rstrip-word (c ∷ d ∷ w) h = rw (rstrip-word (d ∷ w) h.1)

  rstrip-append : (a r : Text) → r ≢ [] → rstrip p r ≡ r → rstrip p (a ++ r) ≡ a ++ r
  unfolding rstrip
  rstrip-append [] r n h = h
  rstrip-append (c ∷ []) [] n h = absurd (n refl)
  rstrip-append (c ∷ []) (d ∷ r) n h = ap (keep_unless p c) h
  rstrip-append (c ∷ d ∷ a) r n h = ap (keep_unless p c) (rstrip-append (d ∷ a) r n h)

  join-ne-nil : (sep : ℕ) (w : Text) (ws : List Text) → w ≢ [] → join sep (w ∷ ws) ≢ []
  unfolding join
  join-ne-nil sep [] ws n e = n refl
  join-ne-nil sep (c ∷ w) [] n e = cc
  join-ne-nil sep (c ∷ w) (v ∷ ws) n e = cc

  pub rstrip-join :
      (sep : ℕ) (w : Text) (ws : List Text)
      → All (IsWord p) (w ∷ ws)
      → rstrip p (join sep (w ∷ ws)) ≡ join sep (w ∷ ws)
  unfolding join
  rstrip-join sep w [] h = rstrip-word w h.0.1
  rstrip-join sep w (v ∷ ws) h =
      rstrip-append w (sep ∷ join sep (v ∷ ws)) (λ e. cc)
        (rstrip-append (sep ∷ []) (join sep (v ∷ ws)) (join-ne-nil sep v ws h.1.0.0)
          (rstrip-join sep v ws h.1))

lstrip-join :
    (sep : ℕ) (w : Text) (ws : List Text)
    → IsWord is_space w
    → lstrip (join sep (w ∷ ws)) ≡ join sep (w ∷ ws)
unfolding join lstrip
lstrip-join sep [] ws h = absurd (h.0 refl)
lstrip-join sep (c ∷ w) [] h = rw h.1.0
lstrip-join sep (c ∷ w) (v ∷ ws) h = rw h.1.0

-- A text that joins words without spaces has none to strip, whatever joins them.
pub strip-join :
    (sep : ℕ) (w : Text) (ws : List Text)
    → All (IsWord is_space) (w ∷ ws)
    → strip (join sep (w ∷ ws)) ≡ join sep (w ∷ ws)
unfolding strip
strip-join sep w ws h = rw (lstrip-join sep w ws h.0) (rstrip-join is_space sep w ws h)

pub strip-word : (w : Text) → IsWord is_space w → strip w ≡ w
unfolding join
strip-word w h = strip-join 0 w [] (h, tt)
