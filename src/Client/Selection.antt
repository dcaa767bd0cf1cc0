-- ===== src/Client/Selection.antt =====
-- Which endpoint a rotator has selected, whatever is done to it.
use native.Mathlib.Nat.{mod-lt}
use validator_health_collect.Base.{
  ℕ, zero, suc, ◌+◌, ◌<◌, ◌≡◌, refl, ◌≢◌, ◌⊎◌, inl, inr, String, Bool, true, false, some, List, [],
  ◌∷◌, length, get_elem?, All, Has, ◌||◌, arith, ◌==◌, string_eq, Bool-cases, if◌then◌else◌,
}
use validator_health_collect.Client.Rotator.{
  Rotator, empty, clean, or_empty, base, find_from, set, advance,
}

-- The selection is in range unless there is nothing to select, and no endpoint is empty.
pub record IsValid (r : Rotator) : Type 0 where
  pub selected : (r.bases ≡ []) ⊎ (r.current < length r.bases)
  pub nonempty : All (λ u. u ≢ "") r.bases

clean-nonempty : (us : List String) → All (λ u. u ≢ "") (clean us)
unfolding clean
clean-nonempty [] = tt
clean-nonempty (u ∷ us) = ground (arith, clean-nonempty us)

find_from-lt :
    (i : ℕ) (us : List String) (p : String)
    → (find_from i us p ≡ 0) ⊎ (find_from i us p < i + length us)
unfolding find_from
find_from-lt i [] p = inl refl
find_from-lt i (u ∷ us) p = ground (arith, find_from-lt (suc i) us p)

set-IsValid : (r : Rotator) (urls : List String) → IsValid (set r urls)
unfolding set
set-IsValid r urls = record {
  selected = ground (arith, find_from-lt 0 (clean urls) (base r));
  nonempty = clean-nonempty urls;
}

advance-IsValid : (r : Rotator) → IsValid r → IsValid (advance r)
unfolding advance
advance-IsValid r v = grind (arith, mod-lt)

-- What is done to a rotator over its life.
pub data Call : Type 0 where
  sets : List String → Call
  advances : Call

unfoldable pub step : Rotator → Call → Rotator
step r (sets urls) = set r urls
step r advances = advance r

unfoldable pub run : Rotator → List Call → Rotator
run r [] = r
run r (c ∷ cs) = run (step r c) cs

step-IsValid : (r : Rotator) (c : Call) → IsValid r → IsValid (step r c)
unfolding step
step-IsValid r (sets urls) v = set-IsValid r urls
step-IsValid r advances v = advance-IsValid r v

run-IsValid : (r : Rotator) (cs : List Call) → IsValid r → IsValid (run r cs)
unfolding run
run-IsValid r [] v = v
run-IsValid r (c ∷ cs) v = run-IsValid (step r c) cs (step-IsValid r c v)

get-All :
    (us : List String) (i : ℕ)
    → All (λ u. u ≢ "") us
    → i < length us
    → (or_empty (get_elem? us i) ≢ "") × Has (or_empty (get_elem? us i)) us
get-All [] i a h = elim h [ ]
get-All (u ∷ us) zero a h = (a.0, inl refl)
get-All (u ∷ us) (suc i) a h = let (p, q) = get-All us i a.1 (omega arith) in (p, inr q)

-- After any calls on a new rotator, `base` is one of the candidates and is not empty, unless there
-- are no candidates.
pub base-run :
    (cs : List Call)
    → let r = run empty cs in (r.bases ≡ []) ⊎ ((base r ≢ "") × Has (base r) r.bases)
unfolding base
base-run cs = elim (run-IsValid empty cs (record { selected = inl refl; nonempty = tt })).selected [
  | inl e ↦ inl e
  | inr h ↦ inr (
      get-All _ _ (run-IsValid empty cs (record { selected = inl refl; nonempty = tt })).nonempty h)
]

abbrev pub first_or_empty : List String → String
first_or_empty us = or_empty (get_elem? us 0)

abbrev pub contains : List String → String → Bool
contains [] p = false
contains (u ∷ us) p = u == p || contains us p

get-find_from :
    (i : ℕ) (us : List String) (p : String)
    → contains us p ≡ true
    → (k : ℕ) × (find_from i us p ≡ i + k) × (get_elem? us k ≡ some p)
unfolding find_from
get-find_from i [] p h = cc
get-find_from i (u ∷ us) p h = elim (Bool-cases (u == p)) [
  | inl e ↦ (0, ground arith, ground arith)
  | inr n ↦ let (k, q, g) = get-find_from (suc i) us p (ground arith) in (suc k, ground arith, g)
]

find_from-absent :
    (i : ℕ) (us : List String) (p : String) → contains us p ≡ false → find_from i us p ≡ 0
unfolding find_from
find_from-absent i [] p h = refl
find_from-absent i (u ∷ us) p h = ground (arith, find_from-absent (suc i) us p)

-- A new candidate list keeps the selected endpoint if it still has it, and otherwise selects its
-- first. The list is compared after blanks and trailing slashes are cut off.
pub base-set :
    (r : Rotator) (urls : List String)
    → base (set r urls)
      ≡ (if contains (clean urls) (base r) then base r else first_or_empty (clean urls))
unfolding set base
base-set r urls = elim (Bool-cases (contains (clean urls) (base r))) [
  | inl e ↦ let (k, q, g) = get-find_from 0 (clean urls) (base r) e in ground (arith, q, g)
  | inr n ↦ rw (find_from-absent 0 (clean urls) (base r) n) (ground arith)
]
