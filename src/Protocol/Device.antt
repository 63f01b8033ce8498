-- ===== src/Protocol/Device.antt =====
-- ricq-core/src/protocol/device.rs, version.rs and qimei.rs: the phone and the program that the client
-- says it is.
use ricq.Base.{ℕ, List, ◌++◌, Option}
use ricq.Result.{codes}

pub record OsVersion : Type 0 where
  pub incremental : List ℕ
  pub release : List ℕ
  pub codename : List ℕ
  pub sdk : ℕ

pub record Qimei : Type 0 where
  pub q16 : List ℕ
  pub q36 : List ℕ

pub record Device : Type 0 where
  pub display : List ℕ
  pub product : List ℕ
  pub device : List ℕ
  pub board : List ℕ
  pub model : List ℕ
  pub finger_print : List ℕ
  pub boot_id : List ℕ
  pub proc_version : List ℕ
  pub imei : List ℕ
  pub brand : List ℕ
  pub bootloader : List ℕ
  pub base_band : List ℕ
  pub version : OsVersion
  pub sim_info : List ℕ
  pub os_type : List ℕ
  pub mac_address : List ℕ
  pub ip_address : List ℕ
  pub wifi_bssid : List ℕ
  pub wifi_ssid : List ℕ
  pub imsi_md5 : List ℕ
  pub android_id : List ℕ
  pub apn : List ℕ
  pub vendor_name : List ℕ
  pub vendor_os_name : List ℕ
  pub qimei : Option Qimei

unfoldable pub device_ksid : Device → List ℕ
device_ksid device = codes "|" ++ (device.imei ++ codes "|A8.2.7.27f6ea96")

pub data Protocol : Type 0 where
  ipad android_phone android_watch android_pad macos qidian : Protocol

pub record Version : Type 0 where
  pub apk_sign : List ℕ
  pub apk_id : List ℕ
  pub app_key : List ℕ
  pub sort_version_name : List ℕ
  pub build_ver : List ℕ
  pub sdk_version : List ℕ
  pub app_id : ℕ
  pub sub_app_id : ℕ
  pub build_time : ℕ
  pub sso_version : ℕ
  pub misc_bitmap : ℕ
  pub sub_sig_map : ℕ
  pub main_sig_map : ℕ
  pub qua : List ℕ
  pub protocol : Protocol
