-- ===== src/Presentation/Plain.antt =====
-- A cipher that leaves every text as it is, for the tests.
use elke.Base.{refl, [], ◌∷◌}
use elke.Base.Bytes.{Bytes}
use elke.Presentation.{AesCbc}

abbrev pub plain_cipher : AesCbc
plain_cipher = record {
  encryptor = λ key iv text. text;
  decryptor = λ key iv text. text;
  decryptor-encryptor = λ key iv text fits. refl;
  length-encryptor = λ key iv text fits. refl;
  encryptor-IsBytes = λ key iv text fits small. small;
}

-- A key of 16 bytes.
abbrev pub sample_key : Bytes
sample_key = 7 ∷ 7 ∷ 7 ∷ 7 ∷ 7 ∷ 7 ∷ 7 ∷ 7 ∷ 8 ∷ 8 ∷ 8 ∷ 8 ∷ 8 ∷ 8 ∷ 8 ∷ 8 ∷ []
