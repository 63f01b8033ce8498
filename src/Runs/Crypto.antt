-- ===== src/Runs/Crypto.antt =====
-- Runs of the model of ricq-core/src/crypto.
use ricq.Base.{ℕ, ◌≡◌, refl, arith, List, replicate}
use ricq.Base.{length-replicate, All-replicate}
use ricq.Wire.{IsByte, IsBytes}
use ricq.Wire.BigEndian.{big_endian}
use ricq.Result.{ok, codes}
use ricq.Crypto.Tea.{Tea16}
use ricq.Crypto.QqTea.{qqtea_encrypt, qqtea_decrypt}
use ricq.Crypto.QqTea.RoundTrip.{IsFilling, qqtea_decrypt-qqtea_encrypt}

abbrev pub filling_220 : ℕ → List ℕ
filling_220 n = replicate n 220

pub filling_220-IsFilling : IsFilling filling_220
filling_220-IsFilling = record {
  size = λ n. length-replicate n 220;
  bytes = λ n. All-replicate IsByte n 220 (omega arith);
}

abbrev pub sevens : List ℕ
sevens = replicate 16 7

abbrev pub hello : List ℕ
hello = codes "hello"

pub hello-IsBytes : IsBytes hello
hello-IsBytes = search arith

qqtea_decrypt-qqtea_encrypt_example :
    (cipher_text : List ℕ) × (qqtea_encrypt filling_220 hello sevens ≡ ok cipher_text)
    × (qqtea_decrypt cipher_text sevens ≡ ok hello)
qqtea_decrypt-qqtea_encrypt_example =
    qqtea_decrypt-qqtea_encrypt filling_220 hello sevens filling_220-IsFilling hello-IsBytes refl

pub encrypted_hello :
    (cipher_text : List ℕ) × (qqtea_encrypt filling_220 hello sevens ≡ ok cipher_text)
encrypted_hello =
    let (cipher_text, e, d) =
      qqtea_decrypt-qqtea_encrypt filling_220 hello sevens filling_220-IsFilling hello-IsBytes
        refl in
    (cipher_text, e)

abbrev counting : Tea16
counting = record { k0 = 1; k1 = 2; k2 = 3; k3 = 4 }
