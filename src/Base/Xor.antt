-- ===== src/Base/Xor.antt =====
-- `^` undone: it keeps its operands apart, and a shift goes through it.
use Prim.Native.Nat.{ℕ, zero, suc, ◌+◌, ◌*◌, ◌/◌, ◌%◌, ◌^◌, ◌<◌, bit_xor, bit_xor-bitwise}
use mathlib.Core.Path.{◌≡◌, ap, sym, ◌∙◌}
use native.Mathlib.Nat.{pow-suc}
use native.Mathlib.Omega.{arith}
use tally_db.Base.Bits.{bit_xor_step, half-div-pow}

pub zero-bit_xor : (a : ℕ) → bit_xor 0 a ≡ a
zero-bit_xor a = simp bit_xor-bitwise (omega arith)

half-bit_xor : (a b : ℕ) → bit_xor a b / 2 ≡ bit_xor (a / 2) (b / 2)
half-bit_xor a b = omega (arith, bit_xor_step a b)

whole : (a : ℕ) → a / 2 ^ 0 ≡ a
whole a = omega arith

pub div-bit_xor : (k a b : ℕ) → bit_xor a b / 2 ^ k ≡ bit_xor (a / 2 ^ k) (b / 2 ^ k)
div-bit_xor zero a b =
    whole (bit_xor a b)
    ∙ sym (ap (λ x. bit_xor x (b / 2 ^ 0)) (whole a) ∙ ap (λ x. bit_xor a x) (whole b))
div-bit_xor (suc k) a b =
    sym (half-div-pow (bit_xor a b) k)
    ∙ ap (λ x. x / 2 ^ k) (half-bit_xor a b)
    ∙ div-bit_xor k (a / 2) (b / 2)
    ∙ ap (λ x. bit_xor x (b / 2 / 2 ^ k)) (half-div-pow a k)
    ∙ ap (λ x. bit_xor (a / 2 ^ suc k) x) (half-div-pow b k)

-- A number of `k` digits is known from its `^` with another, on either side.
pub bit_xor-cancel_right : (k a b c : ℕ) → a < 2 ^ k → b < 2 ^ k → bit_xor a c ≡ bit_xor b c → a ≡ b
bit_xor-cancel_right zero a b c h g e = omega arith
bit_xor-cancel_right (suc k) a b c h g e =
    let steps : bit_xor (a / 2) (c / 2) * 2 + (a % 2 + c % 2) % 2
        ≡ bit_xor (b / 2) (c / 2) * 2 + (b % 2 + c % 2) % 2 =
      sym (bit_xor_step a c) ∙ e ∙ bit_xor_step b c in
    let half =
      bit_xor-cancel_right k (a / 2) (b / 2) (c / 2) (omega (arith, pow-suc 2 k))
        (omega (arith, pow-suc 2 k)) (omega arith) in
    omega arith

pub bit_xor-cancel_left : (k a b c : ℕ) → a < 2 ^ k → b < 2 ^ k → bit_xor c a ≡ bit_xor c b → a ≡ b
bit_xor-cancel_left zero a b c h g e = omega arith
bit_xor-cancel_left (suc k) a b c h g e =
    let steps : bit_xor (c / 2) (a / 2) * 2 + (c % 2 + a % 2) % 2
        ≡ bit_xor (c / 2) (b / 2) * 2 + (c % 2 + b % 2) % 2 =
      sym (bit_xor_step c a) ∙ e ∙ bit_xor_step c b in
    let half =
      bit_xor-cancel_left k (a / 2) (b / 2) (c / 2) (omega (arith, pow-suc 2 k))
        (omega (arith, pow-suc 2 k)) (omega arith) in
    omega arith
