-- ===== src/Crypto/Tea/Keys.antt =====
-- Which keys the cipher accepts.
use ricq.Base.{ℕ, ◌≡◌, ◌≢◌, arith, List, length, ne→==}
use ricq.Wire.{Wire}
use ricq.Result.{RqError, ok, err, panic}
use ricq.Crypto.Tea.{Tea16, key_of, key_words}

module _ ⦃w : Wire⦄ where
  pub key_of_sixteen :
      (key : List ℕ) → length key ≡ 16 → (cipher : Tea16) × (key_of key ≡ ok cipher)
  unfolding key_of
  key_of_sixteen key h = (key_words key, rw h)

  pub key_of_other : (key : List ℕ) → length key ≢ 16 → key_of key ≡ panic
  unfolding key_of
  key_of_other key h = rw (ne→== (length key) 16 h)

  pub key_of-ne-err : (key : List ℕ) (e : RqError) → key_of key ≢ err e
  unfolding key_of
  key_of-ne-err key e = ground arith
