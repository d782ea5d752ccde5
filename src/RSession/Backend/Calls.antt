-- ===== src/RSession/Backend/Calls.antt =====
-- Any calls of a backend one after another, and the sessions that are sealed and opened between them.
use process_bus.Prelude.{ℕ, ◌≡◌, Option, List, [], ◌∷◌, length}
use process_bus.RSession.Layout.{iv_len_gcm, tag_size}
use process_bus.RSession.Crypto.{Crypto}
use process_bus.RSession.Backend.{M, Backend, Primitives, ideal, FailsOr, Refines}

-- What a caller asks for.
pub data Call : Type 0 where
  hmac_call : List ℕ → Call
  encrypt_call : List ℕ → List ℕ → List ℕ → Call
  decrypt_call : List ℕ → List ℕ → List ℕ → List ℕ → Call

-- The IV and the tag have the lengths of the profile.
abbrev pub FitsProfile : Call → Type 0
FitsProfile (hmac_call m) = Unit {0}
FitsProfile (encrypt_call iv aad xs) = length iv ≡ iv_len_gcm
FitsProfile (decrypt_call iv aad xs t) = (length iv ≡ iv_len_gcm) × (length t ≡ tag_size)

abbrev pub AllFit : List Call → Type 0
AllFit [] = Unit {0}
AllFit (q ∷ qs) = FitsProfile q × AllFit qs

-- An answer with its type: the second part is the tag of an encryption.
abbrev pub Answer : Call → Type 0
Answer (encrypt_call iv aad xs) = List ℕ × List ℕ
Answer (hmac_call m) = List ℕ
Answer (decrypt_call iv aad xs t) = List ℕ

abbrev pub ask : {S : Type 0} → Backend S → (q : Call) → M S (Answer q)
ask b (hmac_call m) = b.hmac m
ask b (encrypt_call iv aad xs) = b.encrypt iv aad xs
ask b (decrypt_call iv aad xs t) = b.decrypt iv aad xs t

abbrev pub ideal_answer : Primitives → (q : Call) → Option (Answer q)
ideal_answer p (hmac_call m) = (ideal p).hmac m
ideal_answer p (encrypt_call iv aad xs) = (ideal p).encrypt iv aad xs
ideal_answer p (decrypt_call iv aad xs t) = (ideal p).decrypt iv aad xs t

module _ {S : Type 0} (b : Backend S) (p : Primitives) where
  -- The state behind the calls.
  unfoldable pub after : List Call → S → S
  after [] s = s
  after (q ∷ qs) s = after qs (ask b q s).1

  -- Each of the calls fails or answers like the ideal.
  pub Agree : List Call → S → Type 0
  Agree [] s = Unit {0}
  Agree (q ∷ qs) s = FailsOr (ask b q s).0 (ideal_answer p q) × Agree qs (ask b q s).1

  -- The class as a caller meets it in one state.
  abbrev pub crypto_at : S → Crypto
  crypto_at s = record {
    hmac = λ m. (b.hmac m s).0;
    encrypt = λ iv aad xs. (b.encrypt iv aad xs s).0;
    decrypt = λ iv aad xs t. (b.decrypt iv aad xs t s).0;
  }

  module _ (Ready : S → Type 0) (refines : Refines b p Ready) where
    one_call :
        (q : Call) (s : S)
        → FitsProfile q
        → Ready s
        → FailsOr (ask b q s).0 (ideal_answer p q) × Ready (ask b q s).1
    one_call (hmac_call m) s f r = refines.hmac_refines m s r
    one_call (encrypt_call iv aad xs) s f r = refines.encrypt_refines iv aad xs s f r
    one_call (decrypt_call iv aad xs t) s (f, g) r = refines.decrypt_refines iv aad xs t s f g r

    pub Agree-calls :
        (qs : List Call) (s : S) → AllFit qs → Ready s → Agree qs s × Ready (after qs s)
    unfolding Agree after
    Agree-calls [] s f r = (tt, r)
    Agree-calls (q ∷ qs) s (f, fs) r =
        let (one, r1) = one_call q s f r in
        let (others, r2) = Agree-calls qs (ask b q s).1 fs r1 in ((one, others), r2)
