-- ===== src/Frame/Dotted.antt =====
-- `parse_ipv4` reads an address in dotted decimal notation, and refuses it with anything behind it.
use process_bus.Prelude.{
  ℕ, ◌+◌, ◌-◌, ◌*◌, ◌<◌, ◌≤◌, ◌≡◌, ◌≢◌, refl, ap, ◌∙◌, arith, true, false, Option, none, some, List,
  [], ◌∷◌, ◌++◌, All, length, ltb, leb, ◌==◌, if◌then◌else◌,
}
use process_bus.Frame.Address.{
  is_digit, scan_digits, scan_u, scan_octet, parse_ipv4, scan_number, is_space, behind, combine,
  read_second, read_third, read_fourth,
}

-- The number that digits have behind `sum`.
abbrev pub decimal : ℕ → List ℕ → ℕ
decimal sum [] = sum
decimal sum (c ∷ cs) = decimal (sum * 10 + (c - 48)) cs

-- The digits of a number of one byte, leading zeros included.
pub record IsOctet (n : ℕ) (ds : List ℕ) : Type 0 where
  pub all_digits : All (λ c. (48 ≤ c) × (c ≤ 57)) ds
  pub filled : ds ≢ []
  pub value : decimal 0 ds ≡ n
  pub byte : n < 256

-- A text that is empty or goes on with another character than a digit.
abbrev NoDigitFirst : List ℕ → Type 0
NoDigitFirst [] = Unit {0}
NoDigitFirst (c ∷ cs) = is_digit c ≡ false

scan_digits-append :
    (sum : ℕ) (ds rest : List ℕ)
    → All (λ c. (48 ≤ c) × (c ≤ 57)) ds
    → NoDigitFirst rest
    → scan_digits sum (ds ++ rest) ≡ (decimal sum ds, rest)
scan_digits-append sum [] [] h e = refl
scan_digits-append sum [] (c ∷ rest) h e = rw e refl
scan_digits-append sum (c ∷ ds) rest ((lo, hi), h) e =
    let digit : is_digit c ≡ true = ground (arith, lo, hi) in
    rw digit (scan_digits-append (sum * 10 + (c - 48)) ds rest h e)

module _ (wide : ℕ → ℕ) where
  behind_read :
      (x : Option (ℕ × List ℕ)) (n : ℕ) (rest : List ℕ) (k : ℕ → List ℕ → Option ℕ)
      → x ≡ some (n, rest)
      → behind x k ≡ k n rest
  unfolding behind
  behind_read x n rest k e = rw e refl

  combine_bytes :
      (a b c d : ℕ) (rest : List ℕ)
      → a < 256
      → b < 256
      → c < 256
      → d < 256
      → combine wide a b c (d, rest)
        ≡ (if leb 1 (length rest) then none else some (a * 16777216 + b * 65536 + c * 256 + d))
  combine_bytes a b c d [] ha hb hc hd = ground (arith, ha, hb, hc, hd)
  combine_bytes a b c d (t ∷ rest) ha hb hc hd = ground arith

  plain :
      (c : ℕ)
      → 48 ≤ c
      → c ≤ 57
      → (is_space c ≡ false) × ((c == 45) ≡ false) × ((c == 43) ≡ false) × (is_digit c ≡ true)
  plain c lo hi =
      (ground (arith, lo), ground (arith, lo), ground (arith, lo), ground (arith, lo, hi))

  scan_number-octet :
      (n c : ℕ) (text rest : List ℕ)
      → scan_digits 0 (c ∷ text) ≡ (n, rest)
      → is_digit c ≡ true
      → n < 256
      → scan_number wide false (c ∷ text) ≡ some (n, rest)
  scan_number-octet n c text rest read digit byte =
      let small : ltb n 4294967296 ≡ true = ground (arith, byte) in rw (read, digit, small) refl

  scan_u-octet :
      (n : ℕ) (ds rest : List ℕ)
      → IsOctet n ds
      → NoDigitFirst rest
      → scan_u wide (ds ++ rest) ≡ some (n, rest)
  scan_u-octet n [] rest o e = absurd (o.filled refl)
  scan_u-octet n (c ∷ ds) rest o e =
      let (lo, hi) = o.all_digits.0 in
      let (space, minus, plus, digit) = plain c lo hi in
      let read = scan_digits-append 0 (c ∷ ds) rest o.all_digits e ∙ ap (λ m. (m, rest)) o.value in
      rw (space, minus, plus) (scan_number-octet n c (ds ++ rest) rest read digit o.byte)

  scan_octet-octet :
      (n : ℕ) (ds rest : List ℕ) → IsOctet n ds → scan_octet wide (ds ++ 46 ∷ rest) ≡ some (n, rest)
  scan_octet-octet n ds rest o = rw (scan_octet, scan_u-octet n ds (46 ∷ rest) o refl) refl

  -- Four numbers of one byte with points between them are read as the address that has them as its
  -- bytes, the first one highest, whatever zeros lead them; with a character behind them that is no
  -- digit, the text is refused.
  pub parse_ipv4_dotted :
      (a b c d : ℕ) (xs bs cs ds rest : List ℕ)
      → IsOctet a xs
      → IsOctet b bs
      → IsOctet c cs
      → IsOctet d ds
      → NoDigitFirst rest
      → parse_ipv4 wide (xs ++ (46 ∷ (bs ++ (46 ∷ (cs ++ (46 ∷ (ds ++ rest)))))))
        ≡ (if leb 1 (length rest) then none else some (a * 16777216 + b * 65536 + c * 256 + d))
  unfolding parse_ipv4
  parse_ipv4_dotted a b c d xs bs cs ds rest oa ob oc od e =
      behind_read _ a _ (read_second wide)
        (scan_octet-octet a xs (bs ++ (46 ∷ (cs ++ (46 ∷ (ds ++ rest))))) oa)
      ∙ behind_read _ b _ (read_third wide a) (scan_octet-octet b bs (cs ++ (46 ∷ (ds ++ rest))) ob)
      ∙ behind_read _ c _ (read_fourth wide a b) (scan_octet-octet c cs (ds ++ rest) oc)
      ∙ behind_read _ d _ (λ d tail. combine wide a b c (d, tail)) (scan_u-octet d ds rest od e)
      ∙ combine_bytes a b c d rest oa.byte ob.byte oc.byte od.byte
