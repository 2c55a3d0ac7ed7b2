-- ===== src/Billing/Signature.antt =====
-- api/internal/billingclient/client.go (Sign, VerifySignature): the signature of Billing's events.
use Prim.Native.String.{String, [], ◌∷◌, ◌++◌}
use Prim.Native.String.append
use Prim.Native.Char.{code}
use text.Mathlib.TextEquality.{Char-path}
use ctech_wallet.Prelude.{
  ◌≡◌, ◌≢◌, ◌↔◌, refl, ap, Bool, true, false, ◌||◌, ◌==◌, Option, none, some, if◌then◌else◌, arith,
  eq_iff, nat_eq, eq_refl, Bool-cases, Option-cases, inl, inr,
}
use ctech_wallet.Prelude.Int.{ℤ, pos, ◌-ℤ◌, ◌*ℤ◌, ◌≤ℤ◌, ltb_ℤ, ltb_ℤ_iff}

-- strings.CutPrefix
unfoldable pub cut_prefix : String → String → Option String
cut_prefix [] s = some s
cut_prefix (p ∷ ps) [] = none
cut_prefix (p ∷ ps) (c ∷ cs) =
    let rest = cut_prefix ps cs in if nat_eq (code p) (code c) then rest else none

-- hex(HMAC-SHA256) and strconv.ParseInt of a decimal.
pub record Crypto : Type 0 where
  pub hmac_hex : String → String → String
  pub parse_int : String → Option ℤ

module _ (x : Crypto) where
  -- Sign
  unfoldable pub sign : String → String → String → String
  sign secret timestamp body = x.hmac_hex secret ((timestamp ++ ".") ++ body)

  unfoldable pub in_window : ℤ → ℤ → Option ℤ → Bool
  in_window now skew none = false
  in_window now skew (some sec) =
      let at = sec *ℤ pos 1000000000 in
      if ltb_ℤ skew (now -ℤ at) || ltb_ℤ skew (at -ℤ now) then false else true

  unfoldable pub signed_by : String → String → String → Option String → Bool
  unfolding sign
  signed_by secret timestamp body none = false
  signed_by secret timestamp body (some sig) = sig == sign secret timestamp body

  -- VerifySignature. Each test that fails answers false, so their order does not show.
  unfoldable pub verify_signature : String → String → String → String → ℤ → ℤ → Bool
  unfolding cut_prefix in_window signed_by
  verify_signature secret header timestamp body now skew =
      if secret == ""
      then false
      else if in_window now skew (x.parse_int timestamp)
      then signed_by secret timestamp body (cut_prefix "v1=" header)
      else false

cut_prefix-some : (p s r : String) → cut_prefix p s ≡ some r → s ≡ p ++ r
unfolding cut_prefix
cut_prefix-some [] s r h = rw (append.nil r) (ground arith)
cut_prefix-some (p ∷ ps) [] r h = ground arith
cut_prefix-some (p ∷ ps) (c ∷ cs) r h = elim (Bool-cases (nat_eq (code p) (code c))) [
  | inl same ↦
      let rest = cut_prefix-some ps cs r (ground arith) in
      let head : p ≡ c = ground (arith, Char-path p c) in
      rw (append.cons p ps r) (rw (head, rest) refl)
  | inr other ↦ ground arith
]

cut_prefix-append : (p r : String) → cut_prefix p (p ++ r) ≡ some r
unfolding cut_prefix
cut_prefix-append [] r = rw (append.nil r) refl
cut_prefix-append (p ∷ ps) r = rw (append.cons p ps r) (ground (arith, cut_prefix-append ps r))

cut_prefix_iff : (p s r : String) → (cut_prefix p s ≡ some r) ↔ (s ≡ p ++ r)
cut_prefix_iff p s r = (cut_prefix-some p s r, λ e. rw e (cut_prefix-append p r))

-- The time of a delivery, in seconds, lies within the skew of now, in nanoseconds, on both sides.
abbrev pub IsInWindow : ℤ → ℤ → Option ℤ → Type 0
IsInWindow now skew none = ⊥
IsInWindow now skew (some sec) =
    (now -ℤ sec *ℤ pos 1000000000 ≤ℤ skew) × (sec *ℤ pos 1000000000 -ℤ now ≤ℤ skew)

in_window_iff :
    (x : Crypto) (now skew : ℤ) (o : Option ℤ)
    → (in_window x now skew o ≡ true) ↔ IsInWindow now skew o
unfolding in_window
in_window_iff x now skew none = ground arith
in_window_iff x now skew (some sec) = ground (
  arith,
  ltb_ℤ_iff skew (now -ℤ sec *ℤ pos 1000000000),
  ltb_ℤ_iff skew (sec *ℤ pos 1000000000 -ℤ now),
)

signed_by_iff :
    (x : Crypto) (secret timestamp body : String) (header : String)
    → (signed_by x secret timestamp body (cut_prefix "v1=" header) ≡ true)
      ↔ (header ≡ "v1=" ++ sign x secret timestamp body)
unfolding signed_by
signed_by_iff x secret timestamp body header =
    let sig = sign x secret timestamp body in
    (
      (λ h. elim (Option-cases (cut_prefix "v1=" header)) [
        | inl none_cut ↦ absurd (bad none_cut h)
        | inr (s, cut) ↦ cut_prefix-some "v1=" header sig (rw cut (ap some (good s cut h)))
      ]),
      (λ e. rw ((cut_prefix_iff "v1=" header sig).1 e) (eq_refl sig)),
    )
  where
    bad :
        cut_prefix "v1=" header ≡ none
        → signed_by x secret timestamp body (cut_prefix "v1=" header) ≡ true
        → ⊥
    bad e h = ground arith

    good :
        (s : String)
        → cut_prefix "v1=" header ≡ some s
        → signed_by x secret timestamp body (cut_prefix "v1=" header) ≡ true
        → s ≡ sign x secret timestamp body
    good s e h = (eq_iff s (sign x secret timestamp body)).0 (rw e at h)

-- A delivery is accepted exactly when there is a secret, the header is "v1=" and the hexadecimal
-- HMAC-SHA256, under that secret, of the timestamp, a dot and the body, and the timestamp is a number
-- of seconds within the skew of now.
pub verify_signature_iff :
    (x : Crypto) (secret header timestamp body : String) (now skew : ℤ)
    → (verify_signature x secret header timestamp body now skew ≡ true) ↔ (
        (secret ≢ "")
        × (header ≡ "v1=" ++ x.hmac_hex secret ((timestamp ++ ".") ++ body))
        × IsInWindow now skew (x.parse_int timestamp))
unfolding verify_signature sign
verify_signature_iff x secret header timestamp body now skew = ground (
  arith,
  eq_iff secret "",
  in_window_iff x now skew (x.parse_int timestamp),
  signed_by_iff x secret timestamp body header,
)
