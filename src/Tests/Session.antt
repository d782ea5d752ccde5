-- ===== src/Tests/Session.antt =====
-- The session envelope on concrete packets.
use process_bus.Prelude.{ℕ, ◌<◌, ◌≡◌, ◌↔◌, refl, arith, true, some, List, [], ◌∷◌, All}
use process_bus.Prelude.Result.{ok}
use process_bus.Memory.{Memory}
use process_bus.RSession.{build, parse_session}
use process_bus.RSession.Layout.{sec_hmac, sec_gcm}
use process_bus.RSession.RoundTrip.{built_session}
use process_bus.RSession.Crypto.{verify_hmac}
use process_bus.RSession.Crypto.Verify.{verify_hmac_iff}
use process_bus.RSession.Security.{seal}
use process_bus.RSession.Security.Wire.{Received, seal-Received}
use process_bus.Tests.Data.{
  blank, sv_params, goose_params, checksum_backend, checksum_backend-IsSound, sv_params-FitsFields,
  sv_params-IsKnown,
}

abbrev sv_session : Memory
sv_session = (build blank sv_params).0

abbrev sv_sealed : Memory
sv_sealed = (seal sv_session sec_gcm checksum_backend).1

abbrev goose_session : Memory
goose_session = (build blank goose_params).0

abbrev goose_sealed : Memory
goose_sealed = (seal goose_session sec_hmac checksum_backend).1

parsed : parse_session goose_session 60 ≡ ok (27, built_session goose_params)
unfolding parse_session build
parsed = refl

abbrev tag : List ℕ
tag = 6 ∷ 6 ∷ 6 ∷ 6 ∷ 6 ∷ 6 ∷ 6 ∷ 6 ∷ 6 ∷ 6 ∷ 6 ∷ 6 ∷ 6 ∷ 6 ∷ 6 ∷ 6 ∷ []

tag-bytes : All (λ b. b < 256) tag
tag-bytes = ground arith

verify_hmac_iff_example :
    (verify_hmac checksum_backend (1 ∷ 2 ∷ 3 ∷ []) tag ≡ true)
    ↔ (checksum_backend.hmac (1 ∷ 2 ∷ 3 ∷ []) ≡ some tag)
verify_hmac_iff_example =
    verify_hmac_iff checksum_backend (1 ∷ 2 ∷ 3 ∷ []) tag checksum_backend-IsSound refl tag-bytes

sealed_hmac : seal goose_session sec_hmac checksum_backend ≡ (true, goose_sealed)
unfolding seal
sealed_hmac = refl

sealed_gcm : seal sv_session sec_gcm checksum_backend ≡ (true, sv_sealed)
unfolding seal build
sealed_gcm = refl

seal-Received_example :
    (plain : Memory) × Received blank sv_params 100 checksum_backend sv_sealed plain
seal-Received_example =
    seal-Received checksum_backend checksum_backend-IsSound blank sv_params sv_params-FitsFields
      sv_params-IsKnown sv_sealed 100 (omega arith) sealed_gcm
