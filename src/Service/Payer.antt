-- ===== src/Service/Payer.antt =====
-- api/internal/services/wallet.go (maskedCPFMatches): a payer's CPF, partly masked by the bank,
-- against the CPF of the KYC record. Both are ASCII, so a byte of Go is a character here.
use Prim.Native.Char.{Char, code}
use Prim.Native.String.{String, [], ◌∷◌}
use mathlib.Core.Path.{◌≡◌, refl}
use mathlib.Core.Logic.{◌↔◌, ◌⊎◌, inl, inr}
use mathlib.Core.Bool.{Bool, true, false}
use native.Mathlib.Omega.{arith}
use text.Mathlib.TextEquality.{Char-path}
use ctech_wallet.Prelude.{nat_eq, if◌then◌else◌}

abbrev same_char : Char → Char → Bool
same_char a b = nat_eq (code a) (code b)

-- The code of '*'.
abbrev is_star : Char → Bool
is_star c = nat_eq (code c) 42

-- The loop, with sawDigit.
unfoldable pub masked_from : String → String → Bool → Bool
masked_from [] [] saw = saw
masked_from [] (f ∷ fs) saw = false
masked_from (m ∷ ms) [] saw = false
masked_from (m ∷ ms) (f ∷ fs) saw =
    let skipped = masked_from ms fs saw in
    let matched = masked_from ms fs true in
    if is_star m then skipped else if same_char m f then matched else false

unfoldable pub masked_cpf_matches : String → String → Bool
unfolding masked_from
masked_cpf_matches masked full = masked_from masked full false

-- At each place the mask, or the digit itself.
abbrev pub IsMaskOf : String → String → Type 0
IsMaskOf [] [] = Unit
IsMaskOf [] (f ∷ fs) = ⊥
IsMaskOf (m ∷ ms) [] = ⊥
IsMaskOf (m ∷ ms) (f ∷ fs) = ((code m ≡ 42) ⊎ (m ≡ f)) × IsMaskOf ms fs

abbrev pub ShowsDigit : String → Type 0
ShowsDigit [] = ⊥
ShowsDigit (m ∷ ms) = ((code m ≡ 42) → ⊥) ⊎ ShowsDigit ms

masked_from_iff :
    (ms fs : String) (saw : Bool)
    → (masked_from ms fs saw ≡ true) ↔ (IsMaskOf ms fs × ((saw ≡ true) ⊎ ShowsDigit ms))
unfolding masked_from
masked_from_iff [] [] saw = ground arith
masked_from_iff [] (f ∷ fs) saw = ground arith
masked_from_iff (m ∷ ms) [] saw = ground arith
masked_from_iff (m ∷ ms) (f ∷ fs) saw =
    ground (arith, masked_from_iff ms fs saw, masked_from_iff ms fs true, Char-path m f)

-- A masked CPF matches a full one exactly when it has the same length, each of its characters is
-- '*' or the full one's character there, and some character is not '*'.
pub masked_cpf_matches_iff :
    (masked full : String)
    → (masked_cpf_matches masked full ≡ true) ↔ (IsMaskOf masked full × ShowsDigit masked)
unfolding masked_cpf_matches
masked_cpf_matches_iff masked full = ground (arith, masked_from_iff masked full false)

abbrev pub HasNoStar : String → Type 0
HasNoStar [] = Unit
HasNoStar (m ∷ ms) = ((code m ≡ 42) → ⊥) × HasNoStar ms

-- A text without '*' masks only itself.
pub IsMaskOf-eq : (ms fs : String) → HasNoStar ms → IsMaskOf ms fs → ms ≡ fs
IsMaskOf-eq [] [] plain h = refl
IsMaskOf-eq [] (f ∷ fs) plain h = elim h [ ]
IsMaskOf-eq (m ∷ ms) [] plain h = elim h [ ]
IsMaskOf-eq (m ∷ ms) (f ∷ fs) (plain, rest) (inl star, h) = absurd (plain star)
IsMaskOf-eq (m ∷ ms) (f ∷ fs) (plain, rest) (inr same, h) =
    let tail = IsMaskOf-eq ms fs rest h in rw (same, tail)
