-- ===== src/Tests/Backend.antt =====
-- The crypto backends over libraries whose contexts remember what they were given.
use process_bus.Prelude.{
  ℕ, zero, suc, ◌+◌, ◌-◌, ◌%◌, ◌<◌, ◌≡◌, refl, ap, arith, Bool, true, false, Option, none, some,
  List, [], ◌∷◌, ◌++◌, length, map, replicate, All,
}
use process_bus.Stream.Passport.{bytes_eq, bytes_eq_iff}
use process_bus.Memory.{Memory, slice}
use process_bus.RSession.{build}
use process_bus.RSession.Layout.{sec_gcm}
use process_bus.RSession.Security.{seal}
use process_bus.RSession.Security.Wire.{Received}
use process_bus.RSession.Backend.{M, Primitives, IsStandard, gcm_key, hmac_sha256, lab_key, Ends}
use process_bus.RSession.Backend.OpenSsl
use process_bus.RSession.Backend.OpenSsl.{Direction, Evp, openssl, set_up, build_pad}
use process_bus.RSession.Backend.OpenSsl.Laws.{
  Phase, chosen, sized, keyed, started, processed, finished, tagged, IsDirection, IsEvp,
}
use process_bus.RSession.Backend.Mbedtls
use process_bus.RSession.Backend.Mbedtls.{Mbed, mbedtls}
use process_bus.RSession.Backend.Mbedtls.Refines.{MdPhase, absorbed, IsMbed}
use process_bus.RSession.Backend.Mbedtls.Works.{Answers}
use process_bus.RSession.Backend.Mbedtls.Refines as MbedPhases
use process_bus.RSession.Backend.Calls.{
  Call, hmac_call, encrypt_call, decrypt_call, AllFit, Agree, after, crypto_at,
}
use process_bus.RSession.Backend.Interop.{backends-Agree, unseal-seal_across}
use process_bus.Tests.Data.{sum, blank, sv_params, sv_params-FitsFields, sv_params-IsKnown}

abbrev prims : Primitives
prims = record {
  sha256 = λ m. replicate 32 (sum m % 256);
  cipher = λ key iv xs. map (λ x. x + 1) xs;
  uncipher = λ key iv xs. map (λ x. x - 1) xs;
  tag = λ key iv aad xs. replicate 16 (sum (iv ++ aad ++ xs) % 256);
}

length-add : (xs : List ℕ) → length (map (λ x. x + 1) xs) ≡ length xs
length-add [] = refl
length-add (x ∷ xs) = ap suc (length-add xs)

sub-add : (xs : List ℕ) → map (λ x. x - 1) (map (λ x. x + 1) xs) ≡ xs
sub-add [] = refl
sub-add (x ∷ xs) = rw (sub-add xs) (ap (λ y. y ∷ xs) (omega arith))

All-replicate : (P : ℕ → Type 0) (n b : ℕ) → P b → All P (replicate n b)
All-replicate P zero b h = tt
All-replicate P (suc n) b h = (h, All-replicate P n b h)

prims-IsStandard : IsStandard prims
prims-IsStandard = record {
  length-sha256 = λ m. refl;
  sha256-bytes = λ m. All-replicate (λ b. b < 256) 32 (sum m % 256) (omega arith);
  length-cipher = λ key iv xs. length-add xs;
  uncipher-cipher = λ key iv xs. sub-add xs;
  length-tag = λ key iv aad xs. refl;
}

-- A cipher context is the phase it is in.
abbrev set_iv : List ℕ → M Phase (Unit {0})
set_iv iv keyed = (some tt, started iv [])
set_iv iv s = (none, s)

abbrev add_aad : List ℕ → M Phase (Unit {0})
add_aad aad (started iv old) = (some tt, started iv (old ++ aad))
add_aad aad s = (none, s)

abbrev update : (List ℕ → List ℕ → List ℕ) → (List ℕ → List ℕ → List ℕ) → List ℕ → M Phase (List ℕ)
update run wire xs (started iv aad) = (some (run iv xs), processed iv aad (wire iv xs))
update run wire xs s = (none, s)

abbrev encrypt_final : M Phase (Unit {0})
encrypt_final (processed iv aad out) = (some tt, finished iv aad out)
encrypt_final s = (none, s)

abbrev get_tag : ℕ → M Phase (List ℕ)
get_tag n (finished iv aad out) = (some (prims.tag gcm_key iv aad out), keyed)
get_tag n s = (none, s)

abbrev set_tag : List ℕ → M Phase (Unit {0})
set_tag t (processed iv aad out) = (some tt, tagged iv aad out t)
set_tag t s = (none, s)

abbrev checked : Bool → Option (Unit {0}) × Phase
checked true = (some tt, keyed)
checked false = (none, keyed)

abbrev decrypt_final : M Phase (Unit {0})
decrypt_final (tagged iv aad out t) = checked (bytes_eq t (prims.tag gcm_key iv aad out))
decrypt_final s = (none, s)

abbrev direction : (List ℕ → List ℕ → List ℕ) → (List ℕ → List ℕ → List ℕ) → Direction Phase
direction run wire = record {
  set_cipher = λ s. (some tt, chosen);
  set_iv_len = λ n s. (some tt, sized);
  set_key = λ key s. (some tt, keyed);
  set_iv = set_iv;
  add_aad = add_aad;
  update = update run wire;
}

-- A digest context is the bytes it has taken.
abbrev evp : Evp (List ℕ) Phase
evp = record {
  new_md = λ n. some [];
  new_cipher = λ n. some chosen;
  digest_init = λ s. (some tt, []);
  digest_update = λ xs s. (some tt, s ++ xs);
  digest_final = λ s. (some (prims.sha256 s), []);
  copy_from = λ from s. (some tt, from);
  enc = direction (prims.cipher gcm_key) (prims.cipher gcm_key);
  dec = direction (prims.uncipher gcm_key) (λ iv xs. xs);
  encrypt_final = encrypt_final;
  get_tag = get_tag;
  set_tag = set_tag;
  decrypt_final = decrypt_final;
}

abbrev Took : List ℕ → List ℕ → Type 0
Took xs s = s ≡ xs

abbrev At : Phase → Phase → Type 0
At ph s = s ≡ ph

direction-IsDirection :
    (run wire : List ℕ → List ℕ → List ℕ) → IsDirection (direction run wire) At run wire
direction-IsDirection run wire = record {
  chooses = λ s. refl;
  sizes = λ s e. refl;
  keys = λ s e. refl;
  starts = λ iv s len e. rw e refl;
  adds = λ iv aad s e. rw e refl;
  updates = λ iv aad xs s e. rw e (refl, refl);
}

checked-Ends :
    (t g : List ℕ) (test : Bool)
    → bytes_eq t g ≡ test
    → Ends (λ _ s'. (t ≡ g) × At keyed s') (At keyed) (checked test)
checked-Ends t g true e = ((bytes_eq_iff t g).0 e, refl)
checked-Ends t g false e = refl

evp-IsEvp : IsEvp evp prims Took At At
evp-IsEvp = record {
  inits = λ s. refl;
  absorbs = λ xs ys s e. rw e refl;
  copies = λ xs from s e. e;
  digests = λ xs s e. rw e refl;
  encrypting = direction-IsDirection _ _;
  decrypting = direction-IsDirection _ _;
  finishes = λ iv aad out s e. rw e refl;
  gives_tag = λ iv aad out s e. rw e (refl, refl);
  takes_tag = λ iv aad out t s e. rw e refl;
  verifies = λ iv aad out t s e. rw e (checked-Ends t _ _ refl);
}

abbrev reset : M MdPhase (Unit {0})
reset MbedPhases.keyed = (some tt, absorbed [])
reset s = (none, s)

abbrev absorb : List ℕ → M MdPhase (Unit {0})
absorb ys (absorbed xs) = (some tt, absorbed (xs ++ ys))
absorb ys s = (none, s)

abbrev finish : M MdPhase (List ℕ)
finish (absorbed xs) = (some (hmac_sha256 prims lab_key xs), MbedPhases.keyed)
finish s = (none, s)

abbrev opened : Bool → List ℕ → Option (List ℕ) × Bool
opened true xs = (some (prims.uncipher gcm_key [] xs), true)
opened false xs = (none, true)

-- A GCM context knows whether it has a key.
abbrev mbed : Mbed MdPhase Bool
mbed = record {
  md_init = MbedPhases.set_up;
  gcm_init = false;
  md_setup = λ s. (some tt, MbedPhases.set_up);
  hmac_starts = λ key s. (some tt, MbedPhases.keyed);
  hmac_reset = reset;
  hmac_update = absorb;
  hmac_finish = finish;
  gcm_setkey = λ key s. (some tt, true);
  crypt_and_tag = λ iv aad xs n s.
      let out = prims.cipher gcm_key iv xs in (some (out, prims.tag gcm_key iv aad out), s);
  auth_decrypt = λ iv aad t xs s. opened (bytes_eq t (prims.tag gcm_key iv aad xs)) xs;
}

abbrev MdAt : MdPhase → MdPhase → Type 0
MdAt ph s = s ≡ ph

abbrev HasKey : Bool → Type 0
HasKey s = s ≡ true

opened-Ends :
    (t g xs : List ℕ) (test : Bool)
    → bytes_eq t g ≡ test
    → Ends
        (λ r s'. ((r ≡ prims.uncipher gcm_key [] xs) × (t ≡ g)) × HasKey s')
        HasKey
        (opened test xs)
opened-Ends t g xs true e = ((refl, (bytes_eq_iff t g).0 e), refl)
opened-Ends t g xs false e = refl

mbed-IsMbed : IsMbed mbed prims MdAt HasKey
mbed-IsMbed = record {
  sets_up = λ s. refl;
  starts = λ s e. refl;
  resets = λ s e. rw e refl;
  absorbs = λ xs ys s e. rw e refl;
  finishes = λ xs s e. rw e (refl, refl);
  sets_key = λ s. refl;
  encrypts = λ iv aad xs s len e. (refl, e);
  decrypts = λ iv aad xs t s len short e. opened-Ends t (prims.tag gcm_key iv aad xs) xs _ refl;
}

opened_own : (t xs : List ℕ) → (opened (bytes_eq t t) xs).0 ≡ some (prims.uncipher gcm_key [] xs)
opened_own t xs = rw ((bytes_eq_iff t t).1 refl) refl

mbed-Answers : Answers mbed prims MdAt HasKey
mbed-Answers = record {
  resets = λ s e f. cc (rw e at f);
  absorbs = λ xs ys s e f. cc (rw e at f);
  finishes = λ xs s e f. cc (rw e at f);
  decrypts = λ iv aad xs s len e f. cc (opened_own (prims.tag gcm_key iv aad xs) xs, f);
}

abbrev ready : OpenSsl.Impl (List ℕ) Phase
ready = record {
  inner = build_pad 0x36;
  outer = build_pad 0x5c;
  cur = [];
  enc_ctx = keyed;
  dec_ctx = keyed;
}

made : OpenSsl.make_crypto evp ≡ some ready
unfolding OpenSsl.make_crypto set_up build_pad
made = refl

abbrev ready' : Mbedtls.Impl MdPhase Bool
ready' = record { md = MbedPhases.keyed; gcm = true }

made' : Mbedtls.make_crypto mbed ≡ some ready'
unfolding Mbedtls.make_crypto
made' = refl

abbrev iv : List ℕ
iv = replicate 12 7

-- The tag of the second call is wrong.
abbrev calls : List Call
calls =
    encrypt_call iv (1 ∷ []) (5 ∷ 6 ∷ [])
    ∷ decrypt_call iv (1 ∷ []) (5 ∷ 6 ∷ []) (replicate 16 0)
    ∷ hmac_call (1 ∷ 2 ∷ [])
    ∷ hmac_call (3 ∷ [])
    ∷ []

calls-AllFit : AllFit calls
calls-AllFit = (refl, ((refl, refl), (tt, (tt, tt))))

backends-Agree_example :
    Agree (openssl evp) prims calls ready × Agree (mbedtls mbed) prims calls ready'
backends-Agree_example =
    backends-Agree evp mbed prims Took At At MdAt HasKey calls ready ready' evp-IsEvp mbed-IsMbed
      calls-AllFit made made'

abbrev later : OpenSsl.Impl (List ℕ) Phase
later = after (openssl evp) prims calls ready

abbrev later' : Mbedtls.Impl MdPhase Bool
later' = after (mbedtls mbed) prims calls ready'

abbrev out : Memory
out = (seal (build blank sv_params).0 sec_gcm (crypto_at (openssl evp) prims later)).1

sealed : seal (build blank sv_params).0 sec_gcm (crypto_at (openssl evp) prims later) ≡ (true, out)
unfolding seal build after build_pad slice
sealed = refl

unseal-seal_across_example :
    (plain : Memory) × Received blank sv_params 100
      (crypto_at (mbedtls mbed) prims later')
      out
      plain
unseal-seal_across_example =
    unseal-seal_across evp mbed prims Took At At MdAt HasKey calls calls ready ready' blank out
      sv_params 100 prims-IsStandard evp-IsEvp mbed-IsMbed mbed-Answers calls-AllFit calls-AllFit
      made made' sv_params-FitsFields sv_params-IsKnown (omega arith) sealed
