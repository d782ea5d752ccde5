-- ===== src/Tests/Data.antt =====
-- The packets, streams and the backend of the tests.
use process_bus.Prelude.{
  ℕ, ◌+◌, ◌*◌, ◌%◌, ap, sym, false, ◌<◌, ◌≡◌, refl, arith, List, [], ◌∷◌, ◌++◌, All, length,
  replicate, some, true, inl, inr,
}
use process_bus.Memory.{Memory}
use process_bus.RSession.{BuildParams, FitsFields}
use process_bus.RSession.Layout.{sec_hmac, sec_gcm}
use process_bus.RSession.RoundTrip.{IsKnown}
use process_bus.RSession.Crypto.{Crypto, IsSound}
use process_bus.Generator.Routable.Sealing.{Works}
use process_bus.Parser.Envelope.{CksumFlags}
use process_bus.Frame.{FrameConfig, FitsConfig}

-- A checksum stands for the tag, and the plaintext for its own ciphertext.
abbrev pub sum : List ℕ → ℕ
sum [] = 0
sum (x ∷ xs) = (x + sum xs) % 256

abbrev tag_of : List ℕ → List ℕ
tag_of message = replicate 16 (sum message % 256)

abbrev pub checksum_backend : Crypto
checksum_backend = record {
  hmac = λ message. some (tag_of message);
  encrypt = λ iv aad plain. some (plain, tag_of (iv ++ aad ++ plain));
  decrypt = λ iv aad out tag. some out;
}

tag_of-shape :
    (n : ℕ) → n < 256 → (length (replicate 16 n) ≡ 16) × All (λ b. b < 256) (replicate 16 n)
tag_of-shape n h =
    (refl, (h, (h, (h, (h, (h, (h, (h, (h, (h, (h, (h, (h, (h, (h, (h, (h, tt)))))))))))))))))

pub checksum_backend-IsSound : IsSound checksum_backend
checksum_backend-IsSound = record {
  hmac_shape = λ message tag e.
      let same : tag_of message ≡ tag = cc in
      rw (← same) (tag_of-shape (sum message % 256) (omega arith));
  length-encrypt = λ iv aad plain out tag e.
      let same_out : plain ≡ out = cc in
      let same_tag : tag_of (iv ++ aad ++ plain) ≡ tag = cc in
      (ap length (sym same_out), rw (← same_tag) refl);
  decrypt-encrypt = λ iv aad plain out tag e. cc;
}

pub checksum_backend-Works : Works checksum_backend
checksum_backend-Works = record {
  hmac_works = λ m. (tag_of m, refl);
  encrypt_works = λ iv aad plain. ((plain, tag_of (iv ++ aad ++ plain)), refl);
}

abbrev pub blank : Memory
blank i = (7 * i) % 256

abbrev pub sv_params : BuildParams
sv_params = record {
  si = 0xa2;
  payload_type = 0x82;
  mode = sec_gcm;
  spdu_number = 70000;
  key_id = 1;
  appid = 0x4001;
  apdu_length = 5;
  simulation = false;
}

abbrev pub goose_params : BuildParams
goose_params = record sv_params {
  si = 0xa1;
  payload_type = 0x81;
  mode = sec_hmac;
  simulation = true;
}

pub sv_params-FitsFields : FitsFields sv_params
sv_params-FitsFields = record {
  si_fits = omega arith;
  type_fits = omega arith;
  spdu_fits = omega arith;
  key_fits = omega arith;
  appid_fits = omega arith;
  length_fits = omega arith;
}

pub goose_params-FitsFields : FitsFields goose_params
goose_params-FitsFields = record {
  si_fits = omega arith;
  type_fits = omega arith;
  spdu_fits = omega arith;
  key_fits = omega arith;
  appid_fits = omega arith;
  length_fits = omega arith;
}

pub sv_params-IsKnown : IsKnown sv_params
sv_params-IsKnown = record { si_known = inr refl; type_known = inr refl }

pub goose_params-IsKnown : IsKnown goose_params
goose_params-IsKnown = record { si_known = inl refl; type_known = inl refl }

abbrev pub config : FrameConfig
config = record {
  src_ip = 0xc0a80a01;
  dst_ip = 0xefc00101;
  dst_port = 102;
  ttl = 64;
  src_mac = 0xf0 ∷ 0xf1 ∷ 0xf2 ∷ 0xf3 ∷ 0xf4 ∷ 0xf5 ∷ [];
}

pub config-FitsConfig : FitsConfig config
config-FitsConfig = record {
  src_fits = omega arith;
  dst_fits = omega arith;
  port_fits = omega arith;
  ttl_fits = omega arith;
  mac_length = refl;
  mac_bytes =
      (omega arith, (omega arith, (omega arith, (omega arith, (omega arith, (omega arith, tt))))));
}

-- The values of DPDK's RTE_MBUF_F_RX_IP_CKSUM_* flags.
abbrev pub flags : CksumFlags
flags = record {
  mask = 144;
  unknown = 0;
  bad = 16;
  good = 128;
  unknown-ne-bad = λ e. omega (arith, e);
  good-ne-bad = λ e. omega (arith, e);
}
