-- ===== src/Runs/Login.antt =====
-- Runs of the models of ricq-core/src/lib.rs and of ricq-core/src/command/wtlogin.
use ricq.Base.{refl, [], ◌∷◌, none, true}
use ricq.Base.Int.{pos}
use ricq.Wire.BigEndian.{big_endian}
use ricq.Protocol.Device.{Device, Version, ipad}
use ricq.Protocol.Sig.{Sig}
use ricq.Engine.{Engine}
use ricq.Engine.Token.{Token}
use ricq.Wtlogin.Builder.{Outside, write_entries}
use ricq.Wtlogin.Builder.Login.{login_entries}
use ricq.Wtlogin.Builder.Bodies.{IsBody, login_tags, login_entries-IsBody}
use ricq.Runs.Crypto.{filling_220, sevens, hello}
use ricq.Runs.Codec.{codec_of_sevens}

abbrev pub some_sig : Sig
some_sig = record {
  login_bitmap = 0;
  tgt = [];
  tgt_key = [];
  srm_token = [];
  t133 = [];
  encrypted_a1 = [];
  user_st_key = [];
  user_st_web_sig = [];
  s_key = [];
  s_key_expired_time = 0;
  d2 = [];
  d2key = sevens;
  device_token = [];
  ps_key_map = λ domain. none;
  pt4_token_map = λ domain. none;
  out_packet_session_id = 2 ∷ 176 ∷ 91 ∷ 139 ∷ [];
  dpwd = [];
  t104 = hello;
  t547 = [];
  t174 = [];
  g = 1 ∷ 2 ∷ [];
  t402 = [];
  rand_seed = [];
  sync_const1 = 1;
  sync_const2 = 2;
  sync_const3 = 3;
  sync_cookie = [];
  pub_account_cookie = [];
  guid = sevens;
  tgtgt_key = sevens;
  ksid = hello;
}

abbrev pub some_device : Device
some_device = record {
  display = [];
  product = [];
  device = [];
  board = [];
  model = [];
  finger_print = [];
  boot_id = [];
  proc_version = [];
  imei = hello;
  brand = [];
  bootloader = [];
  base_band = [];
  version = record { incremental = []; release = []; codename = []; sdk = 29 };
  sim_info = [];
  os_type = hello;
  mac_address = [];
  ip_address = 10 ∷ 0 ∷ 1 ∷ 3 ∷ [];
  wifi_bssid = [];
  wifi_ssid = [];
  imsi_md5 = sevens;
  android_id = [];
  apn = [];
  vendor_name = [];
  vendor_os_name = [];
  qimei = none;
}

abbrev pub some_version : Version
some_version = record {
  apk_sign = [];
  apk_id = hello;
  app_key = [];
  sort_version_name = [];
  build_ver = [];
  sdk_version = [];
  app_id = 537066738;
  sub_app_id = 537066738;
  build_time = 1595836208;
  sso_version = 18;
  misc_bitmap = 0x08F7FF7C;
  sub_sig_map = 0x10400;
  main_sig_map = 34869472;
  qua = [];
  protocol = ipad;
}

abbrev pub some_engine : Engine
some_engine = record {
  uin = pos 10001;
  transport = record {
    sig = some_sig;
    device = some_device;
    version = some_version;
    oicq_codec = codec_of_sevens;
  };
  seq_id = 0x3635;
  request_packet_request_id = 1921334513;
  group_seq = 7;
  friend_seq = 8;
  group_data_trans_seq = 9;
  highway_apply_up_seq = 10;
}

abbrev some_token : Token
some_token = record {
  uin = pos 10002;
  d2 = hello;
  d2key = sevens;
  tgt = hello;
  srm_token = [];
  t133 = [];
  encrypted_a1 = [];
  out_packet_session_id = [];
  tgtgt_key = [];
  wt_session_ticket_key = sevens;
}

abbrev pub some_outside : Outside
some_outside = record {
  md5 = λ bytes. sevens;
  length-md5 = λ bytes. refl;
  random = λ n. n;
  as_secs = 1700000000;
  as_millis = 1700000000000;
  filling = λ n k. filling_220 k;
  gen_pb_data = λ device. hello;
}

login_entries-IsBody_example :
    IsBody 9
      (login_tags true)
      (write_entries 9 (login_entries some_outside sevens hello true some_engine))
login_entries-IsBody_example =
    login_entries-IsBody some_outside sevens hello true some_engine refl refl
