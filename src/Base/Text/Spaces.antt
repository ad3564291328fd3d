-- ===== src/Base/Text/Spaces.antt =====
-- Texts without white space, under trimming, splitting and joining.
use Prim.Native.Nat.{ℕ}
use Prim.Native.Char.{Char, code}
use Prim.Native.String.{String, [], ◌∷◌, ◌++◌}
use mathlib.Core.Path.{◌≡◌, refl}
use mathlib.Core.Bool.{false}
use mathlib.Core.List.{List, [], ◌∷◌}
use mathlib.Core.Logic.{inl, inr}
use text.Mathlib.TextLemmas.{nil-append, cons-append, append_assoc}
use gameserver_ingress_contr.Base.Control.{All, Bool-cases}
use gameserver_ingress_contr.Base.Text.{
  same_code, is_space, split, on_head, trim_left, trim_right, trim_space, keep_unless_blank,
  is_empty,
}

-- No character is white space.
abbrev pub NoSpace : String → Type 0
NoSpace [] = Unit
NoSpace (c ∷ s) = (is_space (code c) ≡ false) × NoSpace s

pub NoSpace-append : (s t : String) → NoSpace s → NoSpace t → NoSpace (s ++ t)
NoSpace-append [] t h k = rw nil-append k
NoSpace-append (c ∷ s) t (p, h) k = rw cons-append (p, NoSpace-append s t h k)

pub NoSpace-split : (sep : ℕ) (s : String) → NoSpace s → All NoSpace (split sep s)
unfolding split
NoSpace-split sep [] h = (tt, tt)
NoSpace-split sep (c ∷ s) (p, h) = elim (Bool-cases (same_code (code c) sep)) [
  | inl cut ↦ rw cut (tt, NoSpace-split sep s h)
  | inr kept ↦ rw kept (on_head_part (split sep s) (NoSpace-split sep s h))
]
  where
    on_head_part :
        (parts : List String) → All NoSpace parts → All NoSpace (on_head (λ part. c ∷ part) parts)
    on_head_part [] _ = tt
    on_head_part (part ∷ parts) (q, qs) = ((p, q), qs)

-- Splitting a text always gives a part.
pub split_some : (sep : ℕ) (s : String) → (x : String) × (xs : List String) × (split sep s ≡ x ∷ xs)
unfolding split
split_some sep [] = ("", [], refl)
split_some sep (c ∷ s) = elim (Bool-cases (same_code (code c) sep)) [
  | inl cut ↦ ("", split sep s, rw cut refl)
  | inr kept ↦ let (x, xs, e) = split_some sep s in (c ∷ x, xs, rw (kept, e) refl)
]

trim_left_lem : (s : String) → NoSpace s → trim_left s ≡ s
unfolding trim_left
trim_left_lem [] h = refl
trim_left_lem (c ∷ s) (p, h) = rw p refl

pub keep_lem : (c : Char) (s : String) → is_space (code c) ≡ false → keep_unless_blank c s ≡ c ∷ s
keep_lem c [] p = rw p refl
keep_lem c (d ∷ s) p = refl

trim_right_lem : (s : String) → NoSpace s → trim_right s ≡ s
unfolding trim_right
trim_right_lem [] h = refl
trim_right_lem (c ∷ s) (p, h) = rw (trim_right_lem s h) (keep_lem c s p)

-- Trimming a text without white space changes nothing.
pub trim_space_lem : (s : String) → NoSpace s → trim_space s ≡ s
unfolding trim_space
trim_space_lem s h = rw (trim_left_lem s h) (trim_right_lem s h)

-- Trimming on the right keeps everything before a last text without white space.
trim_right-append : (s t : String) → NoSpace t → is_empty t ≡ false → trim_right (s ++ t) ≡ s ++ t
unfolding trim_right
trim_right-append [] t h e = rw nil-append (trim_right_lem t h)
trim_right-append (c ∷ s) t h e =
    rw (cons-append, trim_right-append s t h e) (keep_non_empty c (s ++ t) (right_non_empty s t e))
  where
    keep_non_empty : (c : Char) (u : String) → is_empty u ≡ false → keep_unless_blank c u ≡ c ∷ u
    keep_non_empty c [] e = cc
    keep_non_empty c (d ∷ u) e = refl

    right_non_empty : (s t : String) → is_empty t ≡ false → is_empty (s ++ t) ≡ false
    right_non_empty [] t e = rw nil-append e
    right_non_empty (d ∷ s) t e = rw cons-append refl

pub trim_left-append : (s t : String) → NoSpace s → is_empty s ≡ false → trim_left (s ++ t) ≡ s ++ t
unfolding trim_left
trim_left-append [] t h e = cc
trim_left-append (c ∷ s) t (p, h) e = rw (cons-append, p) refl

-- A text that begins and ends without white space is not changed by trimming, whatever stands
-- between.
pub trim_space-between :
    (s m t : String)
    → NoSpace s
    → is_empty s ≡ false
    → NoSpace t
    → is_empty t ≡ false
    → trim_space (s ++ (m ++ t)) ≡ s ++ (m ++ t)
unfolding trim_space
trim_space-between s m t hs es ht et =
    rw (trim_left-append s (m ++ t) hs es, ← append_assoc) (trim_right-append (s ++ m) t ht et)
