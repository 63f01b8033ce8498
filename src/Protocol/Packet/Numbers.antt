-- ===== src/Protocol/Packet/Numbers.antt =====
-- The kinds of packets and of encryption of ricq-core/src/protocol/packet.rs and their numbers.
use ricq.Base.{ℕ, ◌%◌, ◌^◌, ◌≡◌, refl, ◌⊎◌, inl, inr, Bool-cases, ◌==◌, ==_eq, sym}
use ricq.Result.{ok, err, invalid_packet_type, invalid_encrypt_type}
use ricq.Protocol.Packet.{PacketType, simple, login, packet_type_value, packet_type_from}
use ricq.Protocol.Packet.{
  EncryptType, no_encrypt, d2_key, empty_key, encrypt_type_value, encrypt_type_from,
}

packet_type_known :
    (v : ℕ)
    → ((t : PacketType) × (packet_type_from v ≡ ok t) × (packet_type_value t ≡ v))
      ⊎ (packet_type_from v ≡ err invalid_packet_type)
unfolding packet_type_from packet_type_value
packet_type_known v = elim (Bool-cases (v == 0x0A)) [
  | inl e ↦ inl (login, rw e, sym (==_eq v 0x0A e))
  | inr e ↦ elim (Bool-cases (v == 0x0B)) [
    | inl f ↦ inl (simple, rw (e, f), sym (==_eq v 0x0B f))
    | inr f ↦ inr (rw (e, f))
  ]
]

packet_type_back : (t : PacketType) → packet_type_from (packet_type_value t) ≡ ok t
unfolding packet_type_from packet_type_value
packet_type_back simple = refl
packet_type_back login = refl

pub packet_type_fits : (t : PacketType) → packet_type_value t % 256 ^ 4 ≡ packet_type_value t
unfolding packet_type_value
packet_type_fits simple = refl
packet_type_fits login = refl

-- Every kind of packet is what `from_i32` makes of its value, and `from_i32` gives for every number
-- the kind with that value or the error of an invalid type.
pub packet_type_from-packet_type_value :
    ((t : PacketType) → packet_type_from (packet_type_value t) ≡ ok t)
    × ((v : ℕ)
        → ((t : PacketType) × (packet_type_from v ≡ ok t) × (packet_type_value t ≡ v))
          ⊎ (packet_type_from v ≡ err invalid_packet_type))
packet_type_from-packet_type_value = (packet_type_back, packet_type_known)

encrypt_type_known :
    (v : ℕ)
    → ((t : EncryptType) × (encrypt_type_from v ≡ ok t) × (encrypt_type_value t ≡ v))
      ⊎ (encrypt_type_from v ≡ err invalid_encrypt_type)
unfolding encrypt_type_from encrypt_type_value
encrypt_type_known v = elim (Bool-cases (v == 0)) [
  | inl e ↦ inl (no_encrypt, rw e, sym (==_eq v 0 e))
  | inr e ↦ elim (Bool-cases (v == 1)) [
    | inl f ↦ inl (d2_key, rw (e, f), sym (==_eq v 1 f))
    | inr f ↦ elim (Bool-cases (v == 2)) [
      | inl g ↦ inl (empty_key, rw (e, f, g), sym (==_eq v 2 g))
      | inr g ↦ inr (rw (e, f, g))
    ]
  ]
]

encrypt_type_back : (t : EncryptType) → encrypt_type_from (encrypt_type_value t) ≡ ok t
unfolding encrypt_type_from encrypt_type_value
encrypt_type_back no_encrypt = refl
encrypt_type_back d2_key = refl
encrypt_type_back empty_key = refl

-- Every kind of encryption is what `from_u8` makes of its value, and `from_u8` gives for every number
-- the kind with that value or the error of an invalid type.
pub encrypt_type_from-encrypt_type_value :
    ((t : EncryptType) → encrypt_type_from (encrypt_type_value t) ≡ ok t)
    × ((v : ℕ)
        → ((t : EncryptType) × (encrypt_type_from v ≡ ok t) × (encrypt_type_value t ≡ v))
          ⊎ (encrypt_type_from v ≡ err invalid_encrypt_type))
encrypt_type_from-encrypt_type_value = (encrypt_type_back, encrypt_type_known)
