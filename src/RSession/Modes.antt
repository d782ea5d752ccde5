-- ===== src/RSession/Modes.antt =====
-- src/common/r_session.cpp: the names of the security modes. A text is its bytes.
use process_bus.Prelude.{ℕ, Option, none, some, List, [], ◌∷◌, if◌then◌else◌}
use process_bus.Stream.Passport.{bytes_eq}
use process_bus.RSession.Layout.{SecurityMode, sec_none, sec_hmac, sec_gcm}

-- "none", "hmac" and "gcm".
abbrev pub none_text : List ℕ
none_text = 110 ∷ 111 ∷ 110 ∷ 101 ∷ []

abbrev pub hmac_text : List ℕ
hmac_text = 104 ∷ 109 ∷ 97 ∷ 99 ∷ []

abbrev pub gcm_text : List ℕ
gcm_text = 103 ∷ 99 ∷ 109 ∷ []

-- None where the code throws.
unfoldable pub parse_security_mode : List ℕ → Option SecurityMode
parse_security_mode text =
    if bytes_eq text none_text
    then some sec_none
    else if bytes_eq text hmac_text
    then some sec_hmac
    else if bytes_eq text gcm_text
    then some sec_gcm
    else none

-- "none", "hmac-sha256-128" and "aes-128-gcm".
abbrev pub to_string : SecurityMode → List ℕ
to_string sec_none = none_text
to_string sec_hmac =
    104 ∷ 109 ∷ 97 ∷ 99 ∷ 45 ∷ 115 ∷ 104 ∷ 97 ∷ 50 ∷ 53 ∷ 54 ∷ 45 ∷ 49 ∷ 50 ∷ 56 ∷ []
to_string sec_gcm = 97 ∷ 101 ∷ 115 ∷ 45 ∷ 49 ∷ 50 ∷ 56 ∷ 45 ∷ 103 ∷ 99 ∷ 109 ∷ []
