-- ===== src/Prelude/Texts.antt =====
-- The functions of Go's `strings` that the handlers and the client use, on native texts, and the prefix of
-- an Authorization header.
use Prim.Native.Char.{Char, code}
use Prim.Native.String.{String, [], ◌∷◌, ◌++◌, len, slice}
use mathlib.Core.Path.{◌≡◌, refl, sym, ap, ◌∙◌}
use mathlib.Core.Logic.{◌≢◌, inl, inr}
use mathlib.Core.Bool.{Bool, true, false, ◌&&◌, ◌||◌}
use text.Mathlib.Text.{starts_with, ◌==◌}
use text.Mathlib.TextEquality.{eq_iff, starts_with_iff}
use text.Mathlib.TextLemmas.{prefix-append, cons-append, nil-append, cons≢nil, head-eq_of_cons-eq}
use text.Mathlib.TextPositions.{starts_with_of_prefix, slice-append_right, len-append}
use pennant.Prelude.Tests.{leb, eqb, if◌then◌else◌, Bool-cases}

abbrev pub has_prefix : String → String → Bool
has_prefix s p = starts_with s p

-- `s[n:]` and `TrimPrefix`
unfoldable pub trim_prefix : String → String → String
trim_prefix s p = if has_prefix s p then slice s (len p) (len s) else s

-- `unicode.IsSpace`
unfoldable pub is_space : Char → Bool
is_space c =
    let n = code c in
    leb 9 n && leb n 13
    || eqb n 32
    || eqb n 133
    || eqb n 160
    || eqb n 5760
    || leb 8192 n && leb n 8202
    || eqb n 8232
    || eqb n 8233
    || eqb n 8239
    || eqb n 8287
    || eqb n 12288

unfoldable pub trim_left : String → String
trim_left [] = ""
trim_left (c ∷ s) = if is_space c then trim_left s else c ∷ s

unfoldable pub trim_right : String → String
trim_right [] = ""
trim_right (c ∷ s) = let rest = trim_right s in if is_space c && rest == "" then "" else c ∷ rest

-- `strings.TrimSpace`
unfoldable pub trim_space : String → String
trim_space s = trim_left (trim_right s)

pub has_prefix-append : (p s : String) → has_prefix (p ++ s) p ≡ true
has_prefix-append p s = starts_with_of_prefix p (p ++ s) (prefix-append p s)

pub slice_after : (p s : String) → slice (p ++ s) (len p) (len (p ++ s)) ≡ s
slice_after p s = ap (λ n. slice (p ++ s) (len p) n) (len-append p s) ∙ slice-append_right p s

pub trim_prefix-append : (p s : String) → trim_prefix (p ++ s) p ≡ s
unfolding trim_prefix
trim_prefix-append p s = simp (has_prefix-append p s) (slice_after p s)

trim_left-if : (s : String) → trim_left (if s == "" then "" else " " ∷ s) ≡ trim_left s
unfolding trim_left is_space
trim_left-if s = elim (Bool-cases (s == "")) [
  | inl e ↦ simp (e) (ap trim_left (sym ((eq_iff s "").0 e)))
  | inr e ↦ simp (e) refl
]

pub trim_space-space : (s : String) → trim_space (" " ++ s) ≡ trim_space s
unfolding trim_space trim_right is_space
trim_space-space s =
    ap (λ t. trim_left (trim_right t)) (cons-append " " "" s ∙ ap (λ t. " " ∷ t) (nil-append s))
    ∙ trim_left-if (trim_right s)

-- A text that goes on after a first character is not empty, and does not begin with another one.
pub cons-append-nonempty : (c : Char) (s t : String) → ((c ∷ s) ++ t == "") ≡ false
cons-append-nonempty c s t = elim (Bool-cases ((c ∷ s) ++ t == "")) [
  | inl e ↦ absurd (cons≢nil (sym (cons-append c s t) ∙ (eq_iff ((c ∷ s) ++ t) "").0 e))
  | inr e ↦ e
]

pub has_prefix-cons_ne :
    (c d : Char) (s t u : String) → c ≢ d → has_prefix ((d ∷ s) ++ u) (c ∷ t) ≡ false
has_prefix-cons_ne c d s t u h = elim (Bool-cases (has_prefix ((d ∷ s) ++ u) (c ∷ t))) [
  | inl e ↦
      let (rest, p) = (starts_with_iff ((d ∷ s) ++ u) (c ∷ t)).0 e in
      absurd (h (head-eq_of_cons-eq (sym (cons-append c t rest) ∙ p ∙ cons-append d s u)))
  | inr e ↦ e
]
