-- ===== src/Prelude/Order.antt =====
-- The order of strings is linear, so `sort.Strings` does not depend on the order it is given.
use Prim.Native.Nat.{Ordering}
use Prim.Native.Char.{Char, code}
use Prim.Native.String.{String, compare}
use Prim.Native.String.compare
use mathlib.Core.Path.{◌≡◌, refl, ap, ◌∙◌}
use mathlib.Core.Bool.{Bool, true, false, ◌||◌, ◌&&◌}
use mathlib.Core.List.{List, [], ◌∷◌}
use native.Mathlib.Omega.{arith}
use text.Mathlib.TextEquality.{Char-path}
use openbao_plugin_secrets_o.Prelude.Tests.{ltb, ◌==◌}
use openbao_plugin_secrets_o.Prelude.Lists.{any}
use openbao_plugin_secrets_o.Prelude.Sort.{str_le, insert_sorted, sort_strings}

abbrev at_most : Ordering → Bool
at_most Ordering.gt = false
at_most _ = true

str_le-at_most : (s t : String) → str_le s t ≡ at_most (compare s t)
str_le-at_most s t = ground arith

str_le-cons :
    (c d : Char) (s t : String)
    → str_le (String.◌∷◌ c s) (String.◌∷◌ d t)
      ≡ (ltb (code c) (code d) || ((code c == code d) && str_le s t))
str_le-cons c d s t =
    str_le-at_most (String.◌∷◌ c s) (String.◌∷◌ d t)
    ∙ ap at_most (compare.cons-cons c d s t)
    ∙ ground arith

str_le-empty : (c : Char) (s : String) → str_le (String.◌∷◌ c s) String.[] ≡ false
str_le-empty c s = str_le-at_most (String.◌∷◌ c s) String.[] ∙ ap at_most (compare.cons-nil c s)

empty-str_le : (s : String) → str_le String.[] s ≡ true
empty-str_le String.[] = str_le-at_most String.[] String.[] ∙ ap at_most compare.nil-nil
empty-str_le (String.◌∷◌ c s) =
    str_le-at_most String.[] (String.◌∷◌ c s) ∙ ap at_most (compare.nil-cons c s)

pub str_le_total : (s t : String) → str_le s t ≡ false → str_le t s ≡ true
str_le_total String.[] t h = absurd (ground (arith, empty-str_le t))
str_le_total (String.◌∷◌ c s) String.[] h = empty-str_le (String.◌∷◌ c s)
str_le_total (String.◌∷◌ c s) (String.◌∷◌ d t) h =
    ground (arith, str_le-cons c d s t, str_le-cons d c t s, str_le_total s t)

pub str_le_antisym : (s t : String) → str_le s t ≡ true → str_le t s ≡ true → s ≡ t
str_le_antisym String.[] String.[] h k = refl
str_le_antisym String.[] (String.◌∷◌ d t) h k = absurd (ground (arith, str_le-empty d t))
str_le_antisym (String.◌∷◌ c s) String.[] h k = absurd (ground (arith, str_le-empty c s))
str_le_antisym (String.◌∷◌ c s) (String.◌∷◌ d t) h k =
    let (same, le, ge) : (code c ≡ code d) × (str_le s t ≡ true) × (str_le t s ≡ true) =
      ground (arith, str_le-cons c d s t, str_le-cons d c t s) in
    λ i. String.◌∷◌ (Char-path c d same i) (str_le_antisym s t le ge i)

pub str_le_trans : (s t u : String) → str_le s t ≡ true → str_le t u ≡ true → str_le s u ≡ true
str_le_trans String.[] t u h k = empty-str_le u
str_le_trans (String.◌∷◌ c s) String.[] u h k = absurd (ground (arith, str_le-empty c s))
str_le_trans (String.◌∷◌ c s) (String.◌∷◌ d t) String.[] h k =
    absurd (ground (arith, str_le-empty d t))
str_le_trans (String.◌∷◌ c s) (String.◌∷◌ d t) (String.◌∷◌ e u) h k =
    ground
      (arith, str_le-cons c d s t, str_le-cons d e t u, str_le-cons c e s u, str_le_trans s t u)

pub insert_sorted_comm :
    (s t : String) (us : List String)
    → insert_sorted s (insert_sorted t us) ≡ insert_sorted t (insert_sorted s us)
unfolding insert_sorted
insert_sorted_comm s t [] = ground (arith, str_le_total s t, str_le_antisym s t)
insert_sorted_comm s t (u ∷ us) = ground (
  arith,
  str_le_total s t,
  str_le_antisym s t,
  str_le_trans s t u,
  str_le_trans t s u,
  insert_sorted_comm s t us,
)

-- A sorted list has the same elements.
any-insert_sorted :
    (p : String → Bool) (s : String) (ss : List String)
    → any p (insert_sorted s ss) ≡ (p s || any p ss)
unfolding any insert_sorted
any-insert_sorted p s [] = refl
any-insert_sorted p s (t ∷ ts) = ground (arith, any-insert_sorted p s ts)

pub any-sort_strings : (p : String → Bool) (ss : List String) → any p (sort_strings ss) ≡ any p ss
unfolding any sort_strings
any-sort_strings p [] = refl
any-sort_strings p (s ∷ ss) =
    ground (arith, any-insert_sorted p s (sort_strings ss), any-sort_strings p ss)
