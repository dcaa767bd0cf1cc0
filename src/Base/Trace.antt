-- ===== src/Base/Trace.antt =====
-- Code as the sequence of its writes to a state that another thread may read between any two of them.
use mathlib.Core.Path.{◌≡◌, refl}
use mathlib.Core.List.{List, [], ◌∷◌, ◌++◌}
use validator_health_collect.Base.Lists.{All}

module _ {S : Type 0} where
  abbrev pub play : List (S → S) → S → S
  play [] s = s
  play (w ∷ ws) s = play ws (w s)

  -- The state before the first write, between any two, and after the last.
  abbrev pub states : List (S → S) → S → List S
  states [] s = s ∷ []
  states (w ∷ ws) s = s ∷ states ws (w s)

  pub play-append : (ws vs : List (S → S)) (s : S) → play (ws ++ vs) s ≡ play vs (play ws s)
  play-append [] vs s = refl
  play-append (w ∷ ws) vs s = play-append ws vs (w s)

  pub All-states_append :
      (P : S → Type 0) (ws vs : List (S → S)) (s : S)
      → All P (states ws s)
      → All P (states vs (play ws s))
      → All P (states (ws ++ vs) s)
  All-states_append P [] vs s h k = k
  All-states_append P (w ∷ ws) vs s (p, h) k = (p, All-states_append P ws vs (w s) h k)

  -- The last of the states is the one that the writes leave.
  pub All-states_play :
      (P : S → Type 0) (ws : List (S → S)) (s : S) → All P (states ws s) → P (play ws s)
  All-states_play P [] s (p, _) = p
  All-states_play P (w ∷ ws) s (_, h) = All-states_play P ws (w s) h

  -- Between any two of the writes, too, `P` holds if it held before them.
  abbrev pub Keeps : (S → Type 0) → List (S → S) → Type 0
  Keeps P ws = (s : S) → P s → All P (states ws s)

  pub Keeps-append :
      (P : S → Type 0) (ws vs : List (S → S)) → Keeps P ws → Keeps P vs → Keeps P (ws ++ vs)
  Keeps-append P ws vs h k s p =
      All-states_append P ws vs s (h s p) (k (play ws s) (All-states_play P ws s (h s p)))

  -- Each of the writes keeps `P`.
  abbrev pub Each : (S → Type 0) → List (S → S) → Type 0
  Each P ws = All (λ w. (s : S) → P s → P (w s)) ws

  pub Each-Keeps : (P : S → Type 0) (ws : List (S → S)) → Each P ws → Keeps P ws
  Each-Keeps P [] e s p = (p, tt)
  Each-Keeps P (w ∷ ws) (e, es) s p = (p, Each-Keeps P ws es (w s) (e s p))
