-- ===== src/Frame/Address.antt =====
-- src/common/r_frame_builder.cpp: `parse_ipv4`, with what `sscanf` does for "%u.%u.%u.%u%c". A text is
-- its bytes without the zero at its end. C leaves open what a number has that does not fit an
-- unsigned: `wide` of its digits is a parameter.
use process_bus.Prelude.{
  ℕ, ◌+◌, ◌-◌, ◌*◌, ◌%◌, Bool, true, false, not, ◌&&◌, ◌||◌, Option, none, some, List, [], ◌∷◌, leb,
  ltb, ◌==◌, if◌then◌else◌,
}

abbrev pub is_digit : ℕ → Bool
is_digit c = leb 48 c && leb c 57

abbrev pub is_space : ℕ → Bool
is_space c = c == 32 || (leb 9 c && leb c 13)

-- The number before the first character that is no digit, and the text from there on.
abbrev pub scan_digits : ℕ → List ℕ → ℕ × List ℕ
scan_digits sum [] = (sum, [])
scan_digits sum (c ∷ cs) =
    let rest = scan_digits (sum * 10 + (c - 48)) cs in if is_digit c then rest else (sum, c ∷ cs)

abbrev pub skip_spaces : List ℕ → List ℕ
skip_spaces [] = []
skip_spaces (c ∷ cs) = let rest = skip_spaces cs in if is_space c then rest else c ∷ cs

-- The conversions that follow one that succeeded.
unfoldable pub behind : Option (ℕ × List ℕ) → (ℕ → List ℕ → Option ℕ) → Option ℕ
behind none k = none
behind (some (n, rest)) k = k n rest

module _ (wide : ℕ → ℕ) where
  abbrev pub as_unsigned : ℕ → ℕ
  as_unsigned n = if ltb n 4294967296 then n else wide n % 4294967296

  abbrev pub scan_number : Bool → List ℕ → Option (ℕ × List ℕ)
  scan_number minus [] = none
  scan_number minus (c ∷ cs) =
      let (n, rest) = scan_digits 0 (c ∷ cs) in
      let value = as_unsigned n in
      if not (is_digit c)
      then none
      else some (if minus then (4294967296 - value) % 4294967296 else value, rest)

  -- `%u`: spaces, a sign and digits.
  abbrev pub scan_signed : List ℕ → Option (ℕ × List ℕ)
  scan_signed [] = none
  scan_signed (c ∷ cs) =
      if c == 45
      then scan_number true cs
      else if c == 43
      then scan_number false cs
      else scan_number false (c ∷ cs)

  abbrev pub scan_u : List ℕ → Option (ℕ × List ℕ)
  scan_u text = scan_signed (skip_spaces text)

  -- `%u.`; where the point is missing, `sscanf` ends with fewer than four numbers.
  abbrev pub behind_point : ℕ × List ℕ → Option (ℕ × List ℕ)
  behind_point (n, []) = none
  behind_point (n, c ∷ cs) = if c == 46 then some (n, cs) else none

  abbrev pub scan_octet : List ℕ → Option (ℕ × List ℕ)
  scan_octet text = elim (scan_u text) [ none ↦ none | some r ↦ behind_point r ]

  -- Four numbers of one byte, and nothing behind them.
  abbrev pub combine : ℕ → ℕ → ℕ → ℕ × List ℕ → Option ℕ
  combine a b c (d, t ∷ tail) = none
  combine a b c (d, []) =
      if ltb 255 a || ltb 255 b || ltb 255 c || ltb 255 d
      then none
      else some (a * 16777216 + b * 65536 + c * 256 + d)

  -- The fourth number, the third and the second, behind those before them.
  abbrev pub read_fourth : ℕ → ℕ → ℕ → List ℕ → Option ℕ
  read_fourth a b c text = behind (scan_u text) (λ d tail. combine a b c (d, tail))

  abbrev pub read_third : ℕ → ℕ → List ℕ → Option ℕ
  read_third a b text = behind (scan_octet text) (read_fourth a b)

  abbrev pub read_second : ℕ → List ℕ → Option ℕ
  read_second a text = behind (scan_octet text) (read_third a)

  unfoldable pub parse_ipv4 : List ℕ → Option ℕ
  parse_ipv4 text = behind (scan_octet text) read_second
