-- ===== src/Prelude/Text.antt =====
-- Text that the engine walks or prints: code points, decimal numbers, and the uses that it makes
-- of Go's strings package with the separator "/".
use Prim.Native.Char.{code}
use Prim.Native.Nat.{ℕ, zero, suc, ◌+◌, ◌/◌, ◌%◌}
use Prim.Native.String.{◌++◌ as append, String}
use mathlib.Core.Bool.{Bool, true, false, ◌&&◌, ◌||◌}
use mathlib.Core.Option.{Option, none, some}
use mathlib.Core.List.{List, [], ◌∷◌, ◌++◌}
use openbao_plugin_secrets_o.Prelude.Tests.{ltb, leb, ◌==◌, if◌then◌else◌}

abbrev pub codes : String → List ℕ
codes String.[] = []
codes (String.◌∷◌ c s) = code c ∷ codes s

-- The decimal digits of a number; a number has fewer digits than its value plus one.
unfoldable pub digits_fuel : ℕ → ℕ → List ℕ
digits_fuel zero n = []
digits_fuel (suc fuel) n =
    let rest = digits_fuel fuel (n / 10) in
    if ltb n 10 then (b'0' + n) ∷ [] else rest ++ (b'0' + n % 10) ∷ []

-- `%d`
unfoldable pub decimal : ℕ → List ℕ
unfolding digits_fuel
decimal n = digits_fuel (suc n) n

-- `strings.ToLower` on one code point, as far as an ASCII pattern can see it: the two letters
-- outside ASCII whose lower case is an ASCII letter are U+0130 and U+212A.
abbrev pub lower : ℕ → ℕ
lower c =
    if leb b'A' c && leb c b'Z'
    then c + 32
    else (if c == 0x130 then b'i' else (if c == 0x212a then b'k' else c))

unfoldable pub begins_with : List ℕ → List ℕ → Bool
begins_with s [] = true
begins_with [] (c ∷ p) = false
begins_with (d ∷ s) (c ∷ p) = d == c && begins_with s p

-- `strings.Contains(s, needle)`
unfoldable pub contains : List ℕ → List ℕ → Bool
contains [] needle = begins_with [] needle
contains (d ∷ s) needle = begins_with (d ∷ s) needle || contains s needle

-- What stands before and behind a "/" is put together again from the tail.
abbrev pub with_head : String → Option (String × String) → Option (String × String)
with_head c none = none
with_head c (some (before, after)) = some (append c before, after)

-- `strings.Cut(s, "/")`, which is `none` where nothing is found.
unfoldable pub cut : String → Option (String × String)
cut String.[] = none
cut (String.◌∷◌ c s) =
    let rest = cut s in if code c == b'/' then some ("", s) else with_head (String.◌∷◌ c "") rest

abbrev pub glue : String → List String → List String
glue c [] = c ∷ []
glue c (s ∷ ss) = append c s ∷ ss

-- `strings.Split(s, "/")`
unfoldable pub split : String → List String
split String.[] = "" ∷ []
split (String.◌∷◌ c s) =
    let rest = split s in if code c == b'/' then "" ∷ rest else glue (String.◌∷◌ c "") rest

-- `strings.Join(segs, "/")`
unfoldable pub join : List String → String
join [] = ""
join (s ∷ []) = s
join (s ∷ t ∷ ss) = append s (append "/" (join (t ∷ ss)))

-- `filepath.IsAbs` on Unix.
abbrev pub is_abs : String → Bool
is_abs String.[] = false
is_abs (String.◌∷◌ c s) = code c == b'/'

-- The same code points.
unfoldable pub same_text : List ℕ → List ℕ → Bool
same_text [] [] = true
same_text (c ∷ s) (d ∷ t) = c == d && same_text s t
same_text _ _ = false
