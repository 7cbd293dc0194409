-- ===== src/Gateway/Sessions.antt =====
-- `_Handler.handle` of crossplatform/linux/tailnet_cfon_gateway.py and the semaphore of `serve`: which
-- clients are served, and how many at once. Handlers run in threads, so arrivals and endings come in
-- any order.
use mathlib.Core.Path.{subst}
use free_net_hub.Prelude.{
  ℕ, zero, suc, ◌+◌, ◌-◌, ◌≤◌, ◌<◌, ◌≡◌, refl, true, not, List, [], ◌∷◌, ltb, ◌==◌, length, All,
  Bool-cases, inl, inr, arith, if◌then◌else◌, Option, none, some, lt→ltb,
}
use free_net_hub.Text.{Text, eq_text}
use free_net_hub.Text.Affix.{eq_of_eq_text}

-- The value of the semaphore, and the clients whose `exchange` runs.
pub record Sessions : Type 0 where
  pub free : ℕ
  pub active : List Text

-- `BoundedSemaphore(MAX_SESSIONS)`
unfoldable pub max_sessions : ℕ
max_sessions = 16

abbrev pub no_sessions : Sessions
no_sessions = record { free = max_sessions; active = [] }

-- `handle` up to `exchange`: the client is refused, or takes a place of the semaphore.
unfoldable pub arrive : Text → Text → Sessions → Sessions
arrive peer client s =
    if not (eq_text client peer)
    then s
    else if s.free == 0
    then s
    else record { free = s.free - 1; active = client ∷ s.active }

abbrev pub remove : ℕ → List Text → List Text
remove n [] = []
remove zero (c ∷ cs) = cs
remove (suc n) (c ∷ cs) = c ∷ remove n cs

-- The `finally` of the n-th running session: `release` raises, here `none`, if no place is taken.
unfoldable pub end_session : ℕ → Sessions → Option Sessions
end_session n s =
    if ltb s.free max_sessions
    then some (record { free = suc s.free; active = remove n s.active })
    else none

-- What the server of a peer may come to.
pub data Reachable (peer : Text) : Sessions → Type 0 where
  start : Reachable peer no_sessions
  arrival :
      (client : Text) (s : Sessions) → Reachable peer s → Reachable peer (arrive peer client s)
  ending :
      (n : ℕ) (s s' : Sessions)
      → Reachable peer s
      → n < length s.active
      → end_session n s ≡ some s'
      → Reachable peer s'

-- Each place of the semaphore is free or taken by a session of the peer.
pub record IsSound (peer : Text) (s : Sessions) : Type 0 where
  pub places : s.free + length s.active ≡ max_sessions
  pub owned : All (λ c. c ≡ peer) s.active

length-remove : (n : ℕ) (cs : List Text) → n < length cs → suc (length (remove n cs)) ≡ length cs
length-remove n [] h = absurd (omega arith)
length-remove zero (c ∷ cs) h = refl
length-remove (suc n) (c ∷ cs) h = omega (arith, length-remove n cs (omega arith))

All-remove :
    (peer : Text) (n : ℕ) (cs : List Text)
    → All (λ c. c ≡ peer) cs
    → All (λ c. c ≡ peer) (remove n cs)
All-remove peer n [] h = h
All-remove peer zero (c ∷ cs) h = h.1
All-remove peer (suc n) (c ∷ cs) h = (h.0, All-remove peer n cs h.1)

arrive-IsSound :
    (peer client : Text) (s : Sessions) → IsSound peer s → IsSound peer (arrive peer client s)
unfolding arrive
arrive-IsSound peer client s h = elim (Bool-cases (eq_text client peer)) [
  | inl mine ↦ elim (Bool-cases (s.free == 0)) [
    | inl full ↦ simp (mine, full) h
    | inr room ↦
        simp (mine, room)
          (record {
            places = let p = h.places in ground arith;
            owned = (eq_of_eq_text client peer mine, h.owned);
          })
  ]
  | inr other ↦ simp (other) h
]

end_session-some :
    (n : ℕ) (s s' : Sessions)
    → end_session n s ≡ some s'
    → record { free = suc s.free; active = remove n s.active } ≡ s'
unfolding end_session
end_session-some n s s' e = elim (Bool-cases (ltb s.free max_sessions)) [
  | inl taken ↦
      let x : some (record { free = suc s.free; active = remove n s.active }) ≡ some s' =
        rw taken at e in
      cc
  | inr full ↦ let x : none ≡ some s' = rw full at e in cc
]

Reachable-IsSound : (peer : Text) (s : Sessions) → Reachable peer s → IsSound peer s
Reachable-IsSound peer _ start = record { places = omega arith; owned = tt }
Reachable-IsSound peer _ (arrival client s r) =
    arrive-IsSound peer client s (Reachable-IsSound peer s r)
Reachable-IsSound peer _ (ending n s s' r h e) =
    let before = Reachable-IsSound peer s r in
    let places = before.places in
    subst (IsSound peer) (end_session-some n s s' e) (record {
      places = omega (arith, length-remove n s.active h);
      owned = All-remove peer n s.active before.owned;
    })

-- However arrivals and endings follow each other, at most 16 sessions run, each for the peer, and
-- none of them fails to give its place back.
pub sessions_bounded :
    (peer : Text) (s : Sessions)
    → Reachable peer s
    → (length s.active ≤ 16)
      × All (λ c. c ≡ peer) s.active
      × ((n : ℕ)
          → n < length s.active
          → end_session n s ≡ some (record { free = suc s.free; active = remove n s.active }))
unfolding end_session max_sessions
sessions_bounded peer s r =
    let sound = Reachable-IsSound peer s r in
    let places : s.free + length s.active ≡ 16 = sound.places in
    (
      omega arith,
      sound.owned,
      λ n h. let taken : ltb s.free 16 ≡ true = lt→ltb s.free 16 (omega arith) in simp (taken) refl,
    )
