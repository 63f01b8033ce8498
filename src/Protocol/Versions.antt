-- ===== src/Protocol/Versions.antt =====
-- The programs that the client can say it is, in ricq-core/src/protocol/version.rs, and the
-- tickets that a login can ask for.
pub mod Names
use ricq.Base.{
  ℕ, ◌≡◌, refl, ◌<◌, arith, List, [], ◌∷◌, Option, none, some, ◌==◌, ◌||◌, bit_or, same_bytes,
  if◌then◌else◌,
}
use ricq.Result.{codes}
use ricq.Protocol.Device.{
  Protocol, ipad, android_phone, android_watch, android_pad, macos, qidian, Version,
}

-- The kinds of tickets that a login asks for.
abbrev pub wlogin_a2 : ℕ
wlogin_a2 = 64

abbrev pub wlogin_a5 : ℕ
wlogin_a5 = 2

abbrev pub wlogin_aqsig : ℕ
wlogin_aqsig = 2097152

abbrev pub wlogin_d2 : ℕ
wlogin_d2 = 262144

abbrev pub wlogin_da2 : ℕ
wlogin_da2 = 33554432

abbrev pub wlogin_lhsig : ℕ
wlogin_lhsig = 4194304

abbrev pub wlogin_lskey : ℕ
wlogin_lskey = 512

abbrev pub wlogin_openkey : ℕ
wlogin_openkey = 16384

abbrev pub wlogin_paytoken : ℕ
wlogin_paytoken = 8388608

abbrev pub wlogin_pf : ℕ
wlogin_pf = 16777216

abbrev pub wlogin_pskey : ℕ
wlogin_pskey = 1048576

abbrev pub wlogin_pt4_token : ℕ
wlogin_pt4_token = 134217728

abbrev pub wlogin_qrpush : ℕ
wlogin_qrpush = 67108864

abbrev pub wlogin_reserved : ℕ
wlogin_reserved = 16

abbrev pub wlogin_sid : ℕ
wlogin_sid = 524288

abbrev pub wlogin_sig64 : ℕ
wlogin_sig64 = 8192

abbrev pub wlogin_skey : ℕ
wlogin_skey = 4096

abbrev pub wlogin_st : ℕ
wlogin_st = 128

abbrev pub wlogin_stweb : ℕ
wlogin_stweb = 32

abbrev pub wlogin_token : ℕ
wlogin_token = 32768

abbrev pub wlogin_vkey : ℕ
wlogin_vkey = 131072

unfoldable pub version_android_phone : Version
version_android_phone = record {
  apk_sign =
      0xA6 ∷ 0xB7 ∷ 0x45 ∷ 0xBF ∷ 0x24 ∷ 0xA2 ∷ 0xC2 ∷ 0x77 ∷ 0x52 ∷ 0x77 ∷ 0x16 ∷ 0xF6 ∷ 0xF3
      ∷ 0x6E ∷ 0xB6 ∷ 0x8D ∷ [];
  apk_id = codes "com.tencent.mobileqq";
  app_key = codes "0S200MNJT807V3GE";
  sort_version_name = codes "8.9.63.11390";
  build_ver = codes "8.9.63.11390";
  sdk_version = codes "6.0.0.2546";
  app_id = 537164840;
  sub_app_id = 537164840;
  build_time = 1685069178;
  sso_version = 20;
  misc_bitmap = 150470524;
  sub_sig_map = 0x10400;
  main_sig_map =
      bit_or
        (bit_or
          (bit_or
            (bit_or
              (bit_or
                (bit_or
                  (bit_or
                    (bit_or
                      (bit_or
                        (bit_or
                          (bit_or
                            (bit_or
                              (bit_or (bit_or (bit_or wlogin_a5 wlogin_reserved) wlogin_stweb)
                                wlogin_a2)
                              wlogin_st)
                            wlogin_lskey)
                          wlogin_skey)
                        wlogin_sig64)
                      65536)
                    wlogin_vkey)
                  wlogin_d2)
                wlogin_sid)
              wlogin_pskey)
            wlogin_aqsig)
          wlogin_lhsig)
        wlogin_paytoken;
  qua = codes "V1_AND_SQ_8.9.63_4194_YYB_D";
  protocol = android_phone;
}

unfoldable pub version_apad : Version
version_apad = record {
  apk_sign =
      0xA6 ∷ 0xB7 ∷ 0x45 ∷ 0xBF ∷ 0x24 ∷ 0xA2 ∷ 0xC2 ∷ 0x77 ∷ 0x52 ∷ 0x77 ∷ 0x16 ∷ 0xF6 ∷ 0xF3
      ∷ 0x6E ∷ 0xB6 ∷ 0x8D ∷ [];
  apk_id = codes "com.tencent.mobileqq";
  app_key = codes "0S200MNJT807V3GE";
  sort_version_name = codes "8.9.63.11390";
  build_ver = codes "8.9.33.614";
  sdk_version = codes "6.0.0.2546";
  app_id = 537164888;
  sub_app_id = 537164888;
  build_time = 1685069178;
  sso_version = 20;
  misc_bitmap = 150470524;
  sub_sig_map = 0x10400;
  main_sig_map =
      bit_or
        (bit_or
          (bit_or
            (bit_or
              (bit_or
                (bit_or
                  (bit_or
                    (bit_or
                      (bit_or
                        (bit_or
                          (bit_or
                            (bit_or
                              (bit_or (bit_or (bit_or wlogin_a5 wlogin_reserved) wlogin_stweb)
                                wlogin_a2)
                              wlogin_st)
                            wlogin_lskey)
                          wlogin_skey)
                        wlogin_sig64)
                      65536)
                    wlogin_vkey)
                  wlogin_d2)
                wlogin_sid)
              wlogin_pskey)
            wlogin_aqsig)
          wlogin_lhsig)
        wlogin_paytoken;
  qua = codes "V1_AND_SQ_8.9.63_4194_YYB_D";
  protocol = android_pad;
}

unfoldable pub version_ipad : Version
version_ipad = record {
  apk_sign =
      170 ∷ 57 ∷ 120 ∷ 244 ∷ 31 ∷ 217 ∷ 111 ∷ 249 ∷ 145 ∷ 74 ∷ 102 ∷ 158 ∷ 24 ∷ 100 ∷ 116 ∷ 199
      ∷ [];
  apk_id = codes "com.tencent.minihd.qq";
  app_key = [];
  sort_version_name = codes "8.9.33.614";
  build_ver = codes "8.9.33.614";
  sdk_version = codes "6.0.0.2433";
  app_id = 537151363;
  sub_app_id = 537151363;
  build_time = 1595836208;
  sso_version = 19;
  misc_bitmap = 150470524;
  sub_sig_map = 66560;
  main_sig_map =
      bit_or
        (bit_or
          (bit_or
            (bit_or (bit_or (bit_or (bit_or wlogin_stweb wlogin_a2) wlogin_st) wlogin_skey)
              wlogin_vkey)
            wlogin_d2)
          wlogin_sid)
        wlogin_pskey;
  qua = [];
  protocol = ipad;
}

unfoldable pub version_android_watch : Version
version_android_watch = record {
  apk_sign =
      0xA6 ∷ 0xB7 ∷ 0x45 ∷ 0xBF ∷ 0x24 ∷ 0xA2 ∷ 0xC2 ∷ 0x77 ∷ 0x52 ∷ 0x77 ∷ 0x16 ∷ 0xF6 ∷ 0xF3
      ∷ 0x6E ∷ 0xB6 ∷ 0x8D ∷ [];
  apk_id = codes "com.tencent.qqlite";
  app_key = [];
  sort_version_name = codes "2.0.5";
  build_ver = codes "2.0.5";
  sdk_version = codes "6.0.0.236";
  app_id = 537064446;
  sub_app_id = 537064446;
  build_time = 1559564731;
  sso_version = 5;
  misc_bitmap = 16252796;
  sub_sig_map = 0x10400;
  main_sig_map = 34869472;
  qua = [];
  protocol = android_watch;
}

unfoldable pub version_macos : Version
version_macos = record {
  apk_sign = codes "com.tencent.qq";
  apk_id = codes "com.tencent.qq";
  app_key = [];
  sort_version_name = codes "6.7.9";
  build_ver = codes "5.8.9.3460";
  sdk_version = codes "6.2.0.1023";
  app_id = 0x2003ca32;
  sub_app_id = 0x2003ca32;
  build_time = 0;
  sso_version = 7;
  misc_bitmap = 0x7ffc;
  sub_sig_map = 66560;
  main_sig_map = 1970400;
  qua = [];
  protocol = macos;
}

unfoldable pub version_qidian : Version
version_qidian = record {
  apk_sign =
      160 ∷ 30 ∷ 236 ∷ 171 ∷ 133 ∷ 233 ∷ 227 ∷ 186 ∷ 43 ∷ 15 ∷ 106 ∷ 21 ∷ 140 ∷ 133 ∷ 92 ∷ 41 ∷ [];
  apk_id = codes "com.tencent.qidian";
  app_key = [];
  sort_version_name = codes "3.8.6";
  build_ver = codes "8.8.38.2266";
  sdk_version = codes "6.0.0.2365";
  app_id = 537061386;
  sub_app_id = 537036590;
  build_time = 1556628836;
  sso_version = 5;
  misc_bitmap = 49807228;
  sub_sig_map = 66560;
  main_sig_map = 34869472;
  qua = [];
  protocol = qidian;
}

unfoldable pub version_android_pad : Version
version_android_pad = record {
  apk_sign =
      0xa6 ∷ 0xb7 ∷ 0x45 ∷ 0xbf ∷ 0x24 ∷ 0xa2 ∷ 0xc2 ∷ 0x77 ∷ 0x52 ∷ 0x77 ∷ 0x16 ∷ 0xf6 ∷ 0xf3
      ∷ 0x6e ∷ 0xb6 ∷ 0x8d ∷ [];
  apk_id = codes "com.tencent.mobileqq";
  app_key = [];
  sort_version_name = codes "8.9.38.10545";
  build_ver = codes "8.8.38.2266";
  sdk_version = codes "6.0.0.2535";
  app_id = 537154261;
  sub_app_id = 537154261;
  build_time = 1556628836;
  sso_version = 19;
  misc_bitmap = 150470524;
  sub_sig_map = 66560;
  main_sig_map = 16724722;
  qua = [];
  protocol = android_pad;
}

unfoldable pub get_version : Protocol → Version
get_version ipad = version_ipad
get_version android_phone = version_android_phone
get_version android_watch = version_android_watch
get_version android_pad = version_android_pad
get_version macos = version_macos
get_version qidian = version_qidian
