-- ===== src/Wtlogin/TlvWriter/Tags.antt =====
-- The tags of the entries of ricq-core/src/command/wtlogin/tlv_writer.rs.
use ricq.Base.{ℕ, ◌≡◌, List, length, Bool}
use ricq.Base.Int.{ℤ}
use ricq.Wire.{Wire}
use ricq.Binary.Writer.Written.{
  Written->>, Written-put_slice, Written-bytes_short, Written-short_lv, Written-limited_size,
}
use ricq.Wtlogin.TlvWriter.Early.{t1, t1b, t1d, t1f, t16, t18, t33, t35, t100, t107, t108, t8, t10a}
use ricq.Wtlogin.TlvWriter.Early.{t16a, t16e, t52d, t104, t2, t17a, t17c}
use ricq.Wtlogin.TlvWriter.Middle.{
  t109, t112, t116, t124, t128, t141, t142, t143, t145, t147, t154, t166,
}
use ricq.Wtlogin.TlvWriter.Late.{
  t174, t177, t187, t188, t191, t193, t194, t197, t198, t202, t318, t401,
}
use ricq.Wtlogin.TlvWriter.Late.{t516, t521, t536}
use ricq.Wtlogin.TlvWriter.Entries.{HasTag, tlv-HasTag}

pub ruleset pieces =
    (Written->>, Written-put_slice, Written-bytes_short, Written-short_lv, Written-limited_size)

module _ ⦃w : Wire⦄ where
  pub t18-HasTag : (app_id uin : ℕ) → HasTag 0x18 (t18 app_id uin)
  unfolding t18
  t18-HasTag app_id uin = tlv-HasTag 0x18 (search pieces depth 12)

  -- An address of four bytes does not panic.
  pub t1-HasTag :
      (random as_secs uin : ℕ) (ip : List ℕ)
      → length ip ≡ 4
      → HasTag 0x01 (t1 random as_secs uin ip)
  unfolding t1
  t1-HasTag random as_secs uin ip h = rw h (tlv-HasTag 0x01 (search pieces depth 12))

  pub t1b-HasTag :
      (micro version size margin dpi ec_level hint : ℕ)
      → HasTag 0x1b (t1b micro version size margin dpi ec_level hint)
  unfolding t1b
  t1b-HasTag micro version size margin dpi ec_level hint = tlv-HasTag 0x1b (search pieces depth 12)

  pub t1d-HasTag : (misc_bitmap : ℕ) → HasTag 0x1d (t1d misc_bitmap)
  unfolding t1d
  t1d-HasTag misc_bitmap = tlv-HasTag 0x1d (search pieces depth 12)

  pub t1f-HasTag :
      (is_root : Bool) (os_name os_version sim_operator_name apn : List ℕ) (network_type : ℕ)
      → HasTag 0x1f (t1f is_root os_name os_version sim_operator_name apn network_type)
  unfolding t1f
  t1f-HasTag is_root os_name os_version sim_operator_name apn network_type =
      tlv-HasTag 0x1f (search pieces depth 12)

  pub t2-HasTag : (result sign : List ℕ) → HasTag 0x02 (t2 result sign)
  unfolding t2
  t2-HasTag result sign = tlv-HasTag 0x02 (search pieces depth 12)

  pub t8-HasTag : (local_id : ℕ) → HasTag 0x08 (t8 local_id)
  unfolding t8
  t8-HasTag local_id = tlv-HasTag 0x08 (search pieces depth 12)

  pub t10a-HasTag : (arr : List ℕ) → HasTag 0x10A (t10a arr)
  unfolding t10a
  t10a-HasTag arr = tlv-HasTag 0x10A (search pieces depth 12)

  pub t16a-HasTag : (arr : List ℕ) → HasTag 0x16A (t16a arr)
  unfolding t16a
  t16a-HasTag arr = tlv-HasTag 0x16A (search pieces depth 12)

  pub t16e-HasTag : (build_model : List ℕ) → HasTag 0x16E (t16e build_model)
  unfolding t16e
  t16e-HasTag build_model = tlv-HasTag 0x16E (search pieces depth 12)

  pub t33-HasTag : (guid : List ℕ) → HasTag 0x33 (t33 guid)
  unfolding t33
  t33-HasTag guid = tlv-HasTag 0x33 (search pieces depth 12)

  pub t52d-HasTag : (dev_info : List ℕ) → HasTag 0x52d (t52d dev_info)
  unfolding t52d
  t52d-HasTag dev_info = tlv-HasTag 0x52d (search pieces depth 12)

  pub t104-HasTag : (dat : List ℕ) → HasTag 0x104 (t104 dat)
  unfolding t104
  t104-HasTag dat = tlv-HasTag 0x104 (search pieces depth 12)

  pub t108-HasTag : (ksid : List ℕ) → HasTag 0x108 (t108 ksid)
  unfolding t108
  t108-HasTag ksid = tlv-HasTag 0x108 (search pieces depth 12)

  pub t17c-HasTag : (code : List ℕ) → HasTag 0x17c (t17c code)
  unfolding t17c
  t17c-HasTag code = tlv-HasTag 0x17c (search pieces depth 12)

  pub t16-HasTag :
      (sso_version app_id sub_app_id : ℕ) (guid apk_id apk_version_name apk_sign : List ℕ)
      → HasTag 0x16 (t16 sso_version app_id sub_app_id guid apk_id apk_version_name apk_sign)
  unfolding t16
  t16-HasTag sso_version app_id sub_app_id guid apk_id apk_version_name apk_sign =
      tlv-HasTag 0x16 (search pieces depth 12)

  pub t17a-HasTag : (value : ℕ) → HasTag 0x17a (t17a value)
  unfolding t17a
  t17a-HasTag value = tlv-HasTag 0x17a (search pieces depth 12)

  pub t35-HasTag : (product_type : ℕ) → HasTag 0x35 (t35 product_type)
  unfolding t35
  t35-HasTag product_type = tlv-HasTag 0x35 (search pieces depth 12)

  pub t100-HasTag :
      (sso_version protocol main_sig_map : ℕ)
      → HasTag 0x100 (t100 sso_version protocol main_sig_map)
  unfolding t100
  t100-HasTag sso_version protocol main_sig_map = tlv-HasTag 0x100 (search pieces depth 12)

  pub t107-HasTag : (pic_type : ℕ) → HasTag 0x107 (t107 pic_type)
  unfolding t107
  t107-HasTag pic_type = tlv-HasTag 0x107 (search pieces depth 12)

  pub t109-HasTag :
      (md5 : List ℕ → List ℕ) (android_id : List ℕ) → HasTag 0x109 (t109 md5 android_id)
  unfolding t109
  t109-HasTag md5 android_id = tlv-HasTag 0x109 (search pieces depth 12)

  pub t112-HasTag : (uin : ℤ) → HasTag 0x112 (t112 uin)
  unfolding t112
  t112-HasTag uin = tlv-HasTag 0x112 (search pieces depth 12)

  pub t116-HasTag : (misc_bitmap sub_sig_map : ℕ) → HasTag 0x116 (t116 misc_bitmap sub_sig_map)
  unfolding t116
  t116-HasTag misc_bitmap sub_sig_map = tlv-HasTag 0x116 (search pieces depth 12)

  pub t124-HasTag :
      (os_type os_version sim_info apn : List ℕ)
      → HasTag 0x124 (t124 os_type os_version sim_info apn)
  unfolding t124
  t124-HasTag os_type os_version sim_info apn = tlv-HasTag 0x124 (search pieces depth 12)

  pub t128-HasTag :
      (is_null is_available is_changed : Bool) (guid_flag : ℕ)
      (build_model guid build_brand : List ℕ)
      → HasTag 0x128 (t128 is_null is_available is_changed guid_flag build_model guid build_brand)
  unfolding t128
  t128-HasTag is_null is_available is_changed guid_flag build_model guid build_brand =
      tlv-HasTag 0x128 (search pieces depth 12)

  pub t141-HasTag : (sim_info apn : List ℕ) → HasTag 0x141 (t141 sim_info apn)
  unfolding t141
  t141-HasTag sim_info apn = tlv-HasTag 0x141 (search pieces depth 12)

  pub t142-HasTag : (apk_id : List ℕ) → HasTag 0x142 (t142 apk_id)
  unfolding t142
  t142-HasTag apk_id = tlv-HasTag 0x142 (search pieces depth 12)

  pub t143-HasTag : (arr : List ℕ) → HasTag 0x143 (t143 arr)
  unfolding t143
  t143-HasTag arr = tlv-HasTag 0x143 (search pieces depth 12)

  pub t145-HasTag : (guid : List ℕ) → HasTag 0x145 (t145 guid)
  unfolding t145
  t145-HasTag guid = tlv-HasTag 0x145 (search pieces depth 12)

  pub t174-HasTag : (dat : List ℕ) → HasTag 0x174 (t174 dat)
  unfolding t174
  t174-HasTag dat = tlv-HasTag 0x174 (search pieces depth 12)

  pub t193-HasTag : (ticket : List ℕ) → HasTag 0x193 (t193 ticket)
  unfolding t193
  t193-HasTag ticket = tlv-HasTag 0x193 (search pieces depth 12)

  pub t194-HasTag : (imsi_md5 : List ℕ) → HasTag 0x194 (t194 imsi_md5)
  unfolding t194
  t194-HasTag imsi_md5 = tlv-HasTag 0x194 (search pieces depth 12)

  pub t318-HasTag : (tgt_qr : List ℕ) → HasTag 0x318 (t318 tgt_qr)
  unfolding t318
  t318-HasTag tgt_qr = tlv-HasTag 0x318 (search pieces depth 12)

  pub t401-HasTag : (d : List ℕ) → HasTag 0x401 (t401 d)
  unfolding t401
  t401-HasTag d = tlv-HasTag 0x401 (search pieces depth 12)

  pub t536-HasTag : (login_extra_data : List ℕ) → HasTag 0x526 (t536 login_extra_data)
  unfolding t536
  t536-HasTag login_extra_data = tlv-HasTag 0x526 (search pieces depth 12)

  pub t147-HasTag :
      (app_id : ℕ) (apk_version_name apk_signature_md5 : List ℕ)
      → HasTag 0x147 (t147 app_id apk_version_name apk_signature_md5)
  unfolding t147
  t147-HasTag app_id apk_version_name apk_signature_md5 = tlv-HasTag 0x147 (search pieces depth 12)

  pub t154-HasTag : (seq : ℕ) → HasTag 0x154 (t154 seq)
  unfolding t154
  t154-HasTag seq = tlv-HasTag 0x154 (search pieces depth 12)

  pub t166-HasTag : (image_type : ℕ) → HasTag 0x166 (t166 image_type)
  unfolding t166
  t166-HasTag image_type = tlv-HasTag 0x166 (search pieces depth 12)

  pub t177-HasTag :
      (build_time : ℕ) (sdk_version : List ℕ) → HasTag 0x177 (t177 build_time sdk_version)
  unfolding t177
  t177-HasTag build_time sdk_version = tlv-HasTag 0x177 (search pieces depth 12)

  pub t187-HasTag :
      (md5 : List ℕ → List ℕ) (mac_address : List ℕ) → HasTag 0x187 (t187 md5 mac_address)
  unfolding t187
  t187-HasTag md5 mac_address = tlv-HasTag 0x187 (search pieces depth 12)

  pub t188-HasTag :
      (md5 : List ℕ → List ℕ) (android_id : List ℕ) → HasTag 0x188 (t188 md5 android_id)
  unfolding t188
  t188-HasTag md5 android_id = tlv-HasTag 0x188 (search pieces depth 12)

  pub t191-HasTag : (k : ℕ) → HasTag 0x191 (t191 k)
  unfolding t191
  t191-HasTag k = tlv-HasTag 0x191 (search pieces depth 12)

  pub t197-HasTag : HasTag 0x197 (t197)
  unfolding t197
  t197-HasTag = tlv-HasTag 0x197 (search pieces depth 12)

  pub t198-HasTag : HasTag 0x198 (t198)
  unfolding t198
  t198-HasTag = tlv-HasTag 0x198 (search pieces depth 12)

  pub t202-HasTag : (wifi_bssid wifi_ssid : List ℕ) → HasTag 0x202 (t202 wifi_bssid wifi_ssid)
  unfolding t202
  t202-HasTag wifi_bssid wifi_ssid = tlv-HasTag 0x202 (search pieces depth 12)

  pub t516-HasTag : HasTag 0x516 (t516)
  unfolding t516
  t516-HasTag = tlv-HasTag 0x516 (search pieces depth 12)

  pub t521-HasTag : (i : ℕ) → HasTag 0x521 (t521 i)
  unfolding t521
  t521-HasTag i = tlv-HasTag 0x521 (search pieces depth 12)
