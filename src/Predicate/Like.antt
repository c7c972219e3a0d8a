-- ===== src/Predicate/Like.antt =====
-- `like_match` of src/query_lite/predicate.rs always ends: the rounds it is given are enough.
use native.Mathlib.Nat.{mul-le-mul_right}
use tally_db.Base.{ℕ, zero, suc, ◌+◌, ◌-◌, ◌*◌, ◌≤◌, ◌<◌, ◌≡◌, refl, arith, Bool, true, false, ◌||◌}
use tally_db.Base.{
  Option, none, some, List, [], ◌∷◌, length, drop, length-drop, ◌==◌, if◌then◌else◌,
}
use tally_db.Predicate.{LikeStep, like_done, like_go, backtrack, like_round, like_loop, like_match}

-- A star leaves at most `p` characters of the pattern, and at least as much text as is left now.
abbrev Held : ℕ → ℕ → List ℕ → Option (List ℕ × List ℕ) → Type 0
Held p t text none = length text ≤ t
Held p t text (some (star_p, star_s)) = (length star_p ≤ p) × (length text ≤ length star_s)

-- The text behind the star, or one more than the whole text.
abbrev open_text : ℕ → Option (List ℕ × List ℕ) → ℕ
open_text t none = suc t
open_text t (some (star_p, star_s)) = length star_s

abbrev weight : ℕ → ℕ → List ℕ → Option (List ℕ × List ℕ) → ℕ
weight p t pattern star = open_text t star * suc p + length pattern

-- A round ends the loop or lowers the weight.
abbrev Lower : ℕ → ℕ → ℕ → LikeStep → Type 0
Lower p t w (like_done b) = Unit
Lower p t w (like_go pattern text star) =
    (length pattern ≤ p) × Held p t text star × (suc (weight p t pattern star) ≤ w)

shorter : (p n k l : ℕ) → 0 < n → k ≤ p → suc ((n - 1) * suc p + k) ≤ n * suc p + l
shorter p zero k l h i = absurd (omega arith)
shorter p (suc n) k l h i = ground arith

backtrack-Lower :
    (p t : ℕ) (pattern text : List ℕ) (star : Option (List ℕ × List ℕ))
    → 0 < length text
    → Held p t text star
    → Lower p t (weight p t pattern star) (backtrack star)
unfolding backtrack
backtrack-Lower p t pattern text none h k = tt
backtrack-Lower p t pattern text (some (star_p, star_s)) h (k, l) =
    let d : length (drop 1 star_s) ≡ length star_s - 1 = length-drop 1 star_s in
    (
      k,
      (k, omega arith),
      rw d (shorter p (length star_s) (length star_p) (length pattern) (omega arith) k),
    )

later_star : (t n : ℕ) (p k : ℕ) → n ≤ t → suc (n * suc p + k) ≤ t * suc p + suc k
later_star t n p k h = omega (arith, mul-le-mul_right {m = n} {n = t} (suc p) h)

Held-open :
    (p t : ℕ) (text : List ℕ) (star : Option (List ℕ × List ℕ))
    → Held p t text star
    → length text ≤ open_text t star
Held-open p t text none k = omega arith
Held-open p t text (some (star_p, star_s)) k = k.1

Held-shorter :
    (p t x : ℕ) (text : List ℕ) (star : Option (List ℕ × List ℕ))
    → Held p t (x ∷ text) star
    → Held p t text star
Held-shorter p t x text none k = omega arith
Held-shorter p t x text (some (star_p, star_s)) k = (k.0, omega (arith, k.1))

Lower-if :
    (b : Bool) (p t w : ℕ) (a c : LikeStep)
    → Lower p t w a
    → Lower p t w c
    → Lower p t w (if b then a else c)
Lower-if true p t w a c h k = h
Lower-if false p t w a c h k = k

like_round-Lower :
    (p t : ℕ) (pattern text : List ℕ) (star : Option (List ℕ × List ℕ))
    → length pattern ≤ p
    → Held p t text star
    → Lower p t (weight p t pattern star) (like_round pattern text star)
unfolding like_round
like_round-Lower p t pattern [] star h k = tt
like_round-Lower p t [] (x ∷ text) star h k = backtrack-Lower p t [] (x ∷ text) star (omega arith) k
like_round-Lower p t (c ∷ pattern) (x ∷ text) star h k =
    Lower-if ((c == 95) || (c == x)) p t (weight p t (c ∷ pattern) star) (like_go pattern text star)
      (if c == 37 then like_go pattern (x ∷ text) (some (pattern, x ∷ text)) else backtrack star)
      (omega arith, Held-shorter p t x text star k, omega arith)
      (Lower-if (c == 37) p t (weight p t (c ∷ pattern) star)
        (like_go pattern (x ∷ text) (some (pattern, x ∷ text))) (backtrack star)
        (
          omega arith,
          (omega arith, omega arith),
          later_star (open_text t star) (length (x ∷ text)) p (length pattern)
              (Held-open p t (x ∷ text) star k),
        )
        (backtrack-Lower p t (c ∷ pattern) (x ∷ text) star (omega arith) k))

Ends : ℕ → List ℕ → List ℕ → Option (List ℕ × List ℕ) → Type 0
Ends fuel pattern text star = (b : Bool) × (like_loop fuel pattern text star ≡ some b)

after_round :
    (fuel p t : ℕ) (pattern : List ℕ) (star : Option (List ℕ × List ℕ)) (next : LikeStep)
    → Lower p t (weight p t pattern star) next
    → weight p t pattern star < suc fuel
    → ((pattern' text' : List ℕ) (star' : Option (List ℕ × List ℕ))
        → length pattern' ≤ p
        → Held p t text' star'
        → weight p t pattern' star' < fuel
        → Ends fuel pattern' text' star')
    → (b : Bool) × (elim next [
      | like_done b ↦ some b
      | like_go pattern' text' star' ↦ like_loop fuel pattern' text' star'
    ]
        ≡ some b)
unfolding Ends
after_round fuel p t pattern star (like_done b) low l rec = (b, refl)
after_round fuel p t pattern star (like_go pattern' text' star') (h, k, m) l rec =
    rec pattern' text' star' h k (omega arith)

like_loop-ends :
    (fuel p t : ℕ) (pattern text : List ℕ) (star : Option (List ℕ × List ℕ))
    → length pattern ≤ p
    → Held p t text star
    → weight p t pattern star < fuel
    → (b : Bool) × (like_loop fuel pattern text star ≡ some b)
unfolding like_loop Ends
like_loop-ends zero p t pattern text star h k l = absurd (omega arith)
like_loop-ends (suc fuel) p t pattern text star h k l =
    after_round fuel p t pattern star (like_round pattern text star)
      (like_round-Lower p t pattern text star h k) l
      (λ pattern' text' star'. like_loop-ends fuel p t pattern' text' star')

-- `like_match` ends with an answer, whatever the pattern and the text.
pub like_match-ends : (pattern text : List ℕ) → (b : Bool) × (like_match pattern text ≡ some b)
unfolding like_match
like_match-ends pattern text =
    like_loop-ends ((length text + 2) * (length pattern + 1)) (length pattern) (length text) pattern
      text none (omega arith) (omega arith) (ground arith)
