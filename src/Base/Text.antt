-- ===== src/Base/Text.antt =====
-- The functions of Go's `strings` package that the source calls, over one separator character.
use Prim.Native.Nat.{ℕ}
use Prim.Native.Char.{Char, code}
use Prim.Native.String.append
use Prim.Native.String.{String, ◌++◌}
use mathlib.Core.Path.{◌≡◌, refl, ap, ◌∙◌}
use mathlib.Core.Bool.{◌||◌, Bool, true, false, not, ◌&&◌}
use native.Mathlib.Omega.{arith}
use mathlib.Core.Option.{Option, none, some}
use mathlib.Core.List.{List, [], ◌∷◌}
use cloud_network_config_con.Base.Tests.{if◌then◌else◌, nat_beq}

abbrev pub glue : Char → List String → List String
glue c [] = String.◌∷◌ c String.[] ∷ []
glue c (w ∷ ws) = String.◌∷◌ c w ∷ ws

-- `strings.Split(s, sep)` for a separator of one character, given by its code.
unfoldable pub split : ℕ → String → List String
split sep String.[] = "" ∷ []
split sep (String.◌∷◌ c s) =
    let rest = split sep s in if nat_beq (code c) sep then "" ∷ rest else glue c rest

split_at_slashes : split b'/' "a/bc//d" ≡ "a" ∷ "bc" ∷ "" ∷ "d" ∷ []
unfolding split
split_at_slashes = refl

-- `strings.ReplaceAll(s, old, new)` for one character, given by its code.
unfoldable pub replace_all : ℕ → String → String → String
replace_all old new String.[] = ""
replace_all old new (String.◌∷◌ c s) =
    let rest = replace_all old new s in
    if nat_beq (code c) old then new ++ rest else String.◌∷◌ c rest

expanded_name : replace_all b'.' ":" "fc00.f853.0ccd" ≡ "fc00:f853:0ccd"
unfolding replace_all
expanded_name = refl

-- The rest of a text behind a prefix.
unfoldable pub behind : String → String → Option String
behind String.[] s = some s
behind (String.◌∷◌ c p) String.[] = none
behind (String.◌∷◌ c p) (String.◌∷◌ d s) =
    let rest = behind p s in if nat_beq (code c) (code d) then rest else none

-- `strings.TrimPrefix(s, prefix)`
abbrev pub or_whole : Option String → String → String
or_whole none s = s
or_whole (some rest) s = rest

unfoldable pub trim_prefix : String → String → String
trim_prefix p s = or_whole (behind p s) s

trimmed : trim_prefix "aws://" "aws:///zone/i-1" ≡ "/zone/i-1"
unfolding trim_prefix behind
trimmed = refl

-- No character of the text has the code.
abbrev pub free : ℕ → String → Bool
free sep String.[] = true
free sep (String.◌∷◌ c s) = not (nat_beq (code c) sep) && free sep s

-- A text without the separator is one part, also before a separator.
pub split-free : (sep : ℕ) (s : String) → free sep s ≡ true → split sep s ≡ s ∷ []
unfolding split
split-free sep String.[] h = refl
split-free sep (String.◌∷◌ c s) h = ground (arith, split-free sep s)

pub split-append :
    (a b : String) → free b'/' a ≡ true → split b'/' (a ++ ("/" ++ b)) ≡ a ∷ split b'/' b
unfolding split
split-append String.[] b h =
    ap (split b'/')
      (append.nil ("/" ++ b) ∙ append.cons "/" "" b ∙ ap (String.◌∷◌ "/") (append.nil b))
split-append (String.◌∷◌ c a) b h = rw (append.cons) (ground (arith, split-append a b))

pub trim_prefix-append : (s : String) → trim_prefix "aws://" ("aws://" ++ s) ≡ s
unfolding trim_prefix behind
trim_prefix-append s =
    rw (append.cons, append.cons, append.cons, append.cons, append.cons, append.cons, append.nil)
      refl

-- `strings.Join(parts, "/")`
unfoldable pub join : List String → String
join [] = ""
join (p ∷ []) = p
join (p ∷ q ∷ ps) = p ++ ("/" ++ join (q ∷ ps))

abbrev pub all_free : List String → Bool
all_free [] = true
all_free (p ∷ ps) = free b'/' p && all_free ps

-- Parts without slashes are read back from their join.
pub split-join :
    (p : String) (ps : List String) → all_free (p ∷ ps) ≡ true → split b'/' (join (p ∷ ps)) ≡ p ∷ ps
unfolding join
split-join p [] h = split-free b'/' p (ground arith)
split-join p (q ∷ ps) h =
    split-append p (join (q ∷ ps)) (ground arith) ∙ ap (λ l. p ∷ l) (split-join q ps (ground arith))

abbrev begins : String → String → Bool
begins p s = elim (behind p s) [ none ↦ false | some _ ↦ true ]

-- `strings.Contains(s, part)`
unfoldable pub has_text : String → String → Bool
has_text part String.[] = begins part ""
has_text part (String.◌∷◌ c s) = let rest = has_text part s in begins part (String.◌∷◌ c s) || rest

text_in_text : has_text "b/c" "a/b/c" ≡ true
unfolding has_text behind
text_in_text = refl
