-- ===== src/Base/Text/Labels.antt =====
-- Texts that can be one part of a host name, and what such a part in front tells.
use Prim.Native.Char.{Char, code}
use Prim.Native.String.{String, [], ◌∷◌, ◌++◌}
use mathlib.Core.Path.{◌≡◌, refl, ap, ap₂, sym, ◌∙◌}
use mathlib.Core.Bool.{false}
use text.Mathlib.TextLemmas.{nil-append, cons-append, head-eq_of_cons-eq, tail-eq_of_cons-eq}
use gameserver_ingress_contr.Base.Text.{same_code, is_space, is_empty, trim_right, trim_space}
use gameserver_ingress_contr.Base.Text.Spaces.{NoSpace, keep_lem, trim_left-append}

-- No character is a dot.
abbrev pub NoDot : String → Type 0
NoDot [] = Unit
NoDot (c ∷ s) = (same_code (code c) 0x2e ≡ false) × NoDot s

-- A text that is not empty and holds neither white space nor a dot.
pub record IsLabel (s : String) : Type 0 where
  pub no_space : NoSpace s
  pub no_dot : NoDot s
  pub not_empty : is_empty s ≡ false

-- Trimming on the right leaves what stands before the last white space.
trim_right-append_left : (s t : String) → NoSpace s → trim_right (s ++ t) ≡ s ++ trim_right t
unfolding trim_right
trim_right-append_left [] t h = rw (nil-append, nil-append) refl
trim_right-append_left (c ∷ s) t (p, h) =
    rw (cons-append, trim_right-append_left s t h, cons-append) (keep_lem c (s ++ trim_right t) p)

pub trim_space-label :
    (s t : String) → IsLabel s → trim_space (s ++ ("." ++ t)) ≡ s ++ ("." ++ trim_right t)
unfolding trim_space is_space
trim_space-label s t l =
    ap trim_right (trim_left-append s ("." ++ t) l.no_space l.not_empty)
    ∙ trim_right-append_left s ("." ++ t) l.no_space
    ∙ ap (λ u. s ++ u) (trim_right-append_left "." t (refl, tt))

dot_cons : (t : String) → "." ++ t ≡ "." ∷ t
dot_cons t = rw (cons-append, nil-append) refl

no_dot_first :
    (c : Char) (s t : String) → same_code (code c) 0x2e ≡ false → Path String ("." ∷ t) (c ∷ s) → ⊥
no_dot_first c s t h e = let q = ap code (head-eq_of_cons-eq e) in let r = rw (← q) at h in cc

-- The texts in front of the first dot agree.
label_inj : (s s' t t' : String) → NoDot s → NoDot s' → s ++ ("." ∷ t) ≡ s' ++ ("." ∷ t') → s ≡ s'
label_inj [] [] t t' h h' e = refl
label_inj [] (c ∷ s') t t' h (p, h') e =
    absurd (no_dot_first c (s' ++ ("." ∷ t')) t p (rw (nil-append, cons-append) at e))
label_inj (c ∷ s) [] t t' (p, h) h' e =
    absurd (no_dot_first c (s ++ ("." ∷ t)) t' p (sym (rw (nil-append, cons-append) at e)))
label_inj (c ∷ s) (d ∷ s') t t' (p, h) (q, h') e =
    let f = rw (cons-append, cons-append) at e in
    ap₂ (λ x y. x ∷ y) (head-eq_of_cons-eq f) (label_inj s s' t t' h h' (tail-eq_of_cons-eq f))

-- Two host names that begin with labels and a dot agree only if the labels do.
pub label-eq_of_host-eq :
    (s s' t t' : String) → IsLabel s → IsLabel s' → s ++ ("." ++ t) ≡ s' ++ ("." ++ t') → s ≡ s'
label-eq_of_host-eq s s' t t' l l' e =
    label_inj s s' t t' l.no_dot l'.no_dot (rw (dot_cons, dot_cons) at e)
