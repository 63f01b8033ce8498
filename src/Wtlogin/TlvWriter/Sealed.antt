-- ===== src/Wtlogin/TlvWriter/Sealed.antt =====
-- The entries that encrypt what they hold, and the one that holds another.
use ricq.Base.{zero, suc, Option, none, some, ℕ, ◌≡◌, List, [], ◌∷◌, length, Bool}
use ricq.Wire.{Wire}
use ricq.Base.Int.{ℤ}
use ricq.Result.{ok}
use ricq.Binary.Writer.{PacketWriter, ◌>>◌, put_slice, put_u8, write_short_lv}
use ricq.Wtlogin.TlvWriter.Domains.{find, write_flagged, write_domain, write_domains, t511}
use ricq.Binary.Writer.{write_option}
use ricq.Binary.Writer.Writes.{Writes-none}
use ricq.Binary.Writer.Written.{
  Written, Written->>, Written-put_slice, Written-with_written, Written-encrypt,
}
use ricq.Wtlogin.TlvWriter.Early.{t106, t106_key, t106_plain, guid_or_random}
use ricq.Wtlogin.TlvWriter.Middle.{t144, t144_plain}
use ricq.Wtlogin.TlvWriter.Late.{t400, t400_plain, t525}
use ricq.Wtlogin.TlvWriter.Entries.{HasTag, tlv-HasTag, HasTag-Written}
use ricq.Wtlogin.TlvWriter.Tags.{
  pieces, t109-HasTag, t52d-HasTag, t124-HasTag, t128-HasTag, t16e-HasTag,
}

nothing : Written (λ buf. ok buf)
nothing = record { bytes = []; writes = unfold write_option in Writes-none }

module _ ⦃w : Wire⦄ where
  guid_or_random-Written : (random : ℕ → ℕ) (guid : List ℕ) → Written (guid_or_random random guid)
  unfolding guid_or_random
  guid_or_random-Written random [] = search pieces depth 12
  guid_or_random-Written random (b ∷ guid) = Written-put_slice (b ∷ guid)

  t106_plain-Written :
      (random : ℕ → ℕ) (as_secs uin salt app_id sso_ver : ℕ) (password_md5 : List ℕ)
      (guid_available : Bool) (guid tgtgt_key : List ℕ) (wtf : ℕ)
      → Written (
          t106_plain random as_secs uin salt app_id sso_ver password_md5 guid_available guid
            tgtgt_key wtf)
  unfolding t106_plain
  t106_plain-Written random as_secs uin salt app_id sso_ver password_md5 guid_available guid
        tgtgt_key wtf =
      search (pieces, guid_or_random-Written) depth 24

  t106_key-Written :
      (password_md5 : List ℕ) (salt uin : ℕ) → Written (t106_key password_md5 salt uin)
  unfolding t106_key
  t106_key-Written password_md5 salt uin = search pieces depth 12

  -- A digest has the sixteen bytes of a key.
  pub t106-HasTag :
      (md5 : List ℕ → List ℕ) (filling : ℕ → List ℕ) (random : ℕ → ℕ)
      (as_secs uin salt app_id sso_ver : ℕ) (password_md5 : List ℕ) (guid_available : Bool)
      (guid tgtgt_key : List ℕ) (wtf : ℕ)
      → ((bytes : List ℕ) → length (md5 bytes) ≡ 16)
      → HasTag 0x106 (
          t106 md5 filling random as_secs uin salt app_id sso_ver password_md5 guid_available guid
            tgtgt_key wtf)
  unfolding t106
  t106-HasTag md5 filling random as_secs uin salt app_id sso_ver password_md5 guid_available guid
        tgtgt_key wtf h =
      tlv-HasTag 0x106 (
        Written-with_written (t106_key-Written password_md5 salt uin) λ v.
          Written-with_written (t106_plain-Written random as_secs uin salt app_id sso_ver _ _ _ _ _)
            λ bytes. Written-encrypt filling (md5 v) bytes (h v))

  pub t144-HasTag :
      (md5 : List ℕ → List ℕ) (filling : ℕ → List ℕ)
      (imei dev_info os_type os_version sim_info apn : List ℕ)
      (is_null is_available is_changed : Bool) (guid_flag : ℕ)
      (build_model guid build_brand tgtgt_key : List ℕ)
      → length tgtgt_key ≡ 16
      → HasTag 0x144 (
          t144 md5 filling imei dev_info os_type os_version sim_info apn is_null is_available
            is_changed guid_flag build_model guid build_brand tgtgt_key)
  unfolding t144 t144_plain
  t144-HasTag md5 filling imei dev_info os_type os_version sim_info apn is_null is_available
        is_changed guid_flag build_model guid build_brand tgtgt_key h =
      tlv-HasTag 0x144 (
        Written-with_written
          (Written->> (Written-put_slice _) (
            Written->> (HasTag-Written (t109-HasTag md5 imei)) (
              Written->> (HasTag-Written (t52d-HasTag dev_info)) (
                Written->> (HasTag-Written (t124-HasTag os_type os_version sim_info apn)) (
                  Written->>
                    (HasTag-Written (
                      t128-HasTag is_null is_available is_changed guid_flag build_model guid
                        build_brand))
                    (HasTag-Written (t16e-HasTag build_model)))))))
          λ bytes. Written-encrypt filling tgtgt_key bytes h)

  t400_plain-Written :
      (as_millis uin : ℕ) (guid dpwd : List ℕ) (j2 j3 : ℕ) (rand_seed : List ℕ)
      → Written (t400_plain as_millis uin guid dpwd j2 j3 rand_seed)
  unfolding t400_plain
  t400_plain-Written as_millis uin guid dpwd j2 j3 rand_seed = search pieces depth 12

  pub t400-HasTag :
      (filling : ℕ → List ℕ) (as_millis : ℕ) (g : List ℕ) (uin : ℕ) (guid dpwd : List ℕ) (j2 j3 : ℕ)
      (rand_seed : List ℕ)
      → length g ≡ 16
      → HasTag 0x400 (t400 filling as_millis g uin guid dpwd j2 j3 rand_seed)
  unfolding t400
  t400-HasTag filling as_millis g uin guid dpwd j2 j3 rand_seed h = tlv-HasTag 0x400 (
      Written-with_written (t400_plain-Written as_millis uin guid dpwd j2 j3 rand_seed)
        λ bytes. Written-encrypt filling g bytes h)

  pub t525-HasTag : {tag : ℕ} {t536 : PacketWriter} → HasTag tag t536 → HasTag 0x525 (t525 t536)
  unfolding t525
  t525-HasTag h = tlv-HasTag 0x525 (Written->> (Written-put_slice _) (HasTag-Written h))

  write_flagged-Written : (number : Option ℤ) (name : List ℕ) → Written (write_flagged number name)
  unfolding write_flagged
  write_flagged-Written none name = nothing
  write_flagged-Written (some i) name = search pieces depth 12

  plain_domain-Written : (d : List ℕ) → Written (do put_u8 0x01; write_short_lv (put_slice d))
  plain_domain-Written d = search pieces depth 12

  write_domain-Written : (i j : Option ℕ) (d : List ℕ) → Written (write_domain i j d)
  unfolding write_domain
  write_domain-Written (some zero) (some (suc i)) d = write_flagged-Written _ _
  write_domain-Written (some zero) (some zero) d = plain_domain-Written d
  write_domain-Written (some zero) none d = plain_domain-Written d
  write_domain-Written (some (suc j)) index_of2 d = plain_domain-Written d
  write_domain-Written none index_of2 d = plain_domain-Written d

  write_domains-Written : (domains : List (List ℕ)) → Written (write_domains domains)
  unfolding write_domains
  write_domains-Written [] = nothing
  write_domains-Written (d ∷ domains) =
      Written->> (write_domain-Written (find 40 d) (find 41 d) d) (write_domains-Written domains)

  pub t511-HasTag : (domains : List (List ℕ)) → HasTag 0x511 (t511 domains)
  unfolding t511
  t511-HasTag domains =
      tlv-HasTag 0x511 (Written->> (Written-put_slice _) (write_domains-Written _))
