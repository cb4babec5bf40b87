-- ===== src/Presentation/Tests.antt =====
-- Theorems on src/elke27_lib/presentation_loop.py at concrete inputs.
use elke.Base.{◌≡◌, refl, true, [], ◌∷◌, arith}
use elke.Base.Result.{ok, ◌>>=◌}
use elke.Presentation.{api_link_iv, decrypt_schema0_envelope, encrypt_schema0_envelope}
use elke.Presentation.Layout.{opened}
use elke.Presentation.RoundTrip.{Accepted, decrypt_schema0_envelope-encrypt_schema0_envelope}
use elke.Presentation.Plain.{plain_cipher, sample_key}

sample-Accepted : Accepted sample_key api_link_iv 1 0 0 17
sample-Accepted = record {
  key_16 = refl;
  iv_16 = refl;
  src_byte = omega arith;
  dest_byte = omega arith;
  head_byte = omega arith;
  seq_32 = omega arith;
}

decrypt_schema0_envelope-encrypt_schema0_envelope_example :
    (encrypt_schema0_envelope plain_cipher (123 ∷ 125 ∷ []) sample_key 1 0 0 17 api_link_iv
      >>= λ (protocol_byte, ct).
          decrypt_schema0_envelope plain_cipher protocol_byte ct sample_key api_link_iv true)
    ≡ ok (opened 17 1 0 0 (123 ∷ 125 ∷ []) 5)
decrypt_schema0_envelope-encrypt_schema0_envelope_example =
    decrypt_schema0_envelope-encrypt_schema0_envelope plain_cipher (123 ∷ 125 ∷ []) true
      sample-Accepted
