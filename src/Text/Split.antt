-- ===== src/Text/Split.antt =====
-- `str.split`, `re.split` and `str.join` undo one another on words that hold no separator.
use free_net_hub.Prelude.{
  ℕ, ◌≡◌, ◌≢◌, refl, ap, ◌∙◌, Bool, true, false, ◌||◌, List, [], ◌∷◌, ◌++◌, arith, ◌==◌, All, all,
  and-eq_true, Bool-cases, inl, inr,
}
use free_net_hub.Text.{Text, split_on, split_runs, join, starts_run, cons_head}

abbrev pub Free : (ℕ → Bool) → Text → Type 0
Free p w = All (λ c. p c ≡ false) w

All-cons_head :
    (q : ℕ → Bool) (c : ℕ) (ws : List Text)
    → All (λ w. all q w ≡ true) (cons_head c ws)
    → (q c ≡ true) × All (λ w. all q w ≡ true) ws
All-cons_head q c [] h = (ground arith, tt)
All-cons_head q c (w ∷ ws) h = let (a, b) = and-eq_true (q c) (all q w) h.0 in (a, (b, h.1))

-- A character of the text is the separator or stands in a piece.
pub all-split_on :
    (q : ℕ → Bool) (sep : ℕ) (s : Text)
    → All (λ w. all q w ≡ true) (split_on sep s)
    → all (λ c. q c || c == sep) s ≡ true
unfolding split_on
all-split_on q sep [] h = refl
all-split_on q sep (c ∷ s) h = elim (Bool-cases (c == sep)) [
  | inl same ↦ ground (arith, all-split_on q sep s)
  | inr other ↦ ground (arith, all-split_on q sep s, All-cons_head q c (split_on sep s))
]

module _ (p : ℕ → Bool) where
  pub split_runs-word : (w : Text) → Free p w → split_runs p w ≡ w ∷ []
  unfolding split_runs
  split_runs-word [] h = refl
  split_runs-word (c ∷ w) h = ground (arith, split_runs-word w h.1)

  split_runs-append :
      (w : Text) (sep : ℕ) (rest : Text)
      → Free p w
      → p sep ≡ true
      → starts_run p rest ≡ false
      → split_runs p (w ++ (sep ∷ rest)) ≡ w ∷ split_runs p rest
  unfolding split_runs
  split_runs-append [] sep rest h k r = ground arith
  split_runs-append (c ∷ w) sep rest h k r = ground (arith, split_runs-append w sep rest h.1 k r)

  abbrev pub IsWord : Text → Type 0
  IsWord w = (w ≢ []) × Free p w

  starts_run-join :
      (sep : ℕ) (w : Text) (ws : List Text) → IsWord w → starts_run p (join sep (w ∷ ws)) ≡ false
  unfolding join
  starts_run-join sep [] ws h = absurd (h.0 refl)
  starts_run-join sep (c ∷ w) [] h = h.1.0
  starts_run-join sep (c ∷ w) (v ∷ ws) h = h.1.0

  -- Splitting at runs of separators gives back the words that a separator joined.
  pub split_runs-join :
      (sep : ℕ) (w : Text) (ws : List Text)
      → p sep ≡ true
      → All IsWord (w ∷ ws)
      → split_runs p (join sep (w ∷ ws)) ≡ w ∷ ws
  unfolding join
  split_runs-join sep w [] k h = split_runs-word w h.0.1
  split_runs-join sep w (v ∷ ws) k h =
      split_runs-append w sep (join sep (v ∷ ws)) h.0.1 k (starts_run-join sep v ws h.1.0)
      ∙ ap (λ r. w ∷ r) (split_runs-join sep v ws k h.1)
