-- ===== src/Base/Text/Laws.antt =====
-- Laws of the text functions.
use Prim.Native.Char.{Char, code}
use Prim.Native.String.{String, [], ◌∷◌, ◌++◌}
use mathlib.Core.Path.{◌≡◌, refl, ap, ap₂}
use mathlib.Core.Logic.{◌↔◌, inl, inr}
use mathlib.Core.Bool.{true}
use mathlib.Core.Option.{none, some}
use native.Mathlib.Omega.{arith}
use text.Mathlib.TextEquality.{Char-path}
use text.Mathlib.TextLemmas.{nil-append, cons-append, cons≢nil}
use gameserver_ingress_contr.Base.Control.{Bool-cases}
use gameserver_ingress_contr.Base.Text.{same_code, strip_prefix, is_empty}

same_code→eq : (c d : Char) → same_code (code d) (code c) ≡ true → d ≡ c
same_code→eq c d h = Char-path d c (ground arith)

same_code_refl : (c : Char) → same_code (code c) (code c) ≡ true
same_code_refl c = ground arith

pub strip_prefix-append : (p s : String) → strip_prefix (p ++ s) p ≡ some s
unfolding strip_prefix
strip_prefix-append [] s = ap some (nil-append s)
strip_prefix-append (c ∷ p) s = rw (cons-append, same_code_refl) (strip_prefix-append p s)

-- Where a prefix is stripped, the text is the prefix and the rest.
pub strip_prefix_sound : (s p : String) {r : String} → strip_prefix s p ≡ some r → s ≡ p ++ r
unfolding strip_prefix
strip_prefix_sound s [] {r} h = rw nil-append (cc)
strip_prefix_sound [] (c ∷ p) h = cc
strip_prefix_sound (d ∷ s) (c ∷ p) {r} h = elim (Bool-cases (same_code (code d) (code c))) [
  | inl same ↦
      rw cons-append (ap₂ ◌∷◌ (same_code→eq c d same) (strip_prefix_sound s p (rw same at h)))
  | inr other ↦ let e : none ≡ some r = rw other at h in cc
]

pub is_empty_iff : (s : String) → (is_empty s ≡ true) ↔ (s ≡ "")
is_empty_iff [] = (λ _. refl, λ _. refl)
is_empty_iff (c ∷ s) = (λ h. cc, λ h. absurd (cons≢nil h))
