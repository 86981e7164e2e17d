-- ===== src/Prelude/Show.antt =====
-- `String(n)` of a natural number, and `encodeURIComponent`.
use Prim.Native.Nat.{ℕ, zero, suc, ◌+◌, ◌-◌, ◌*◌, ◌/◌, ◌%◌}
use mathlib.Core.Bool.{Bool, ◌&&◌, ◌||◌}
use mathlib.Core.List.{[], ◌∷◌, ◌++◌}
use mathlib.Core.Option.{Option, none, some}
use social_monitor.Prelude.Tests.{ltb, leb, eqb, if◌then◌else◌}
use social_monitor.Prelude.Texts.{Text}

-- Decimal digits; the fuel, the number itself, bounds the number of digits.
unfoldable pub show_from : ℕ → ℕ → Text → Text
show_from zero n acc = acc
show_from (suc f) n acc =
    let digits = (b'0' + n % 10) ∷ acc in
    let rest = show_from f (n / 10) digits in if ltb n 10 then digits else rest

unfoldable pub show : ℕ → Text
unfolding show_from
show n = show_from (suc n) n []

abbrev between : ℕ → ℕ → ℕ → Bool
between lo hi c = leb lo c && leb c hi

-- Letters, digits and - _ . ! ~ * ' ( )
is_unreserved : ℕ → Bool
is_unreserved c =
    between b'a' b'z' c
    || between b'A' b'Z' c
    || between b'0' b'9' c
    || eqb c b'-'
    || eqb c b'_'
    || eqb c b'.'
    || eqb c b'!'
    || eqb c b'~'
    || eqb c b'*'
    || between 39 41 c

hex_digit : ℕ → ℕ
hex_digit d = if ltb d 10 then b'0' + d else b'A' + (d - 10)

percent : ℕ → Text
unfolding hex_digit
percent byte = b'%' ∷ hex_digit (byte / 16) ∷ hex_digit (byte % 16) ∷ []

-- The bytes of a code point in UTF-8, escaped.
escape : ℕ → Text
unfolding percent
escape c =
    if ltb c 0x80
    then percent c
    else if ltb c 0x800
    then percent (0xc0 + c / 64) ++ percent (0x80 + c % 64)
    else if ltb c 0x10000
    then percent (0xe0 + c / 4096) ++ (percent (0x80 + c / 64 % 64) ++ percent (0x80 + c % 64))
    else percent (0xf0 + c / 0x40000)
      ++ (percent (0x80 + c / 4096 % 64)
          ++ (percent (0x80 + c / 64 % 64) ++ percent (0x80 + c % 64)))

encode_point : ℕ → Text
unfolding is_unreserved escape
encode_point c = if is_unreserved c then c ∷ [] else escape c

abbrev prepend : Text → Option Text → Option Text
prepend s none = none
prepend s (some t) = some (s ++ t)

abbrev is_high : ℕ → Bool
is_high = between 0xd800 0xdbff

abbrev is_low : ℕ → Bool
is_low = between 0xdc00 0xdfff

-- `none` on a lone surrogate, where the call throws a URIError.
unfoldable pub encode_uri_component : Text → Option Text
unfolding encode_point
encode_uri_component [] = some []
encode_uri_component (c ∷ []) = if is_high c || is_low c then none else some (encode_point c)
encode_uri_component (c ∷ d ∷ s) =
    let one = prepend (encode_point c) (encode_uri_component (d ∷ s)) in
    let pair = 0x10000 + (c - 0xd800) * 0x400 + (d - 0xdc00) in
    let two = prepend (encode_point pair) (encode_uri_component s) in
    if is_high c then (if is_low d then two else none) else (if is_low c then none else one)
