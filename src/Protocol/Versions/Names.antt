-- ===== src/Protocol/Versions/Names.antt =====
-- The names and numbers of the protocols of ricq-core/src/protocol/version.rs, and their versions.
use ricq.Base.{
  ℕ, ◌≡◌, refl, List, Option, none, some, ◌==◌, ◌||◌, bit_or, same_bytes, if◌then◌else◌,
}
use ricq.Result.{codes}
use ricq.Protocol.Device.{Protocol, ipad, android_phone, android_watch, android_pad, macos, qidian}
use ricq.Protocol.Versions.{
  wlogin_a2, wlogin_st, wlogin_skey, wlogin_d2, wlogin_pskey, version_android_phone, version_apad,
  version_ipad, version_android_watch, version_macos, version_qidian, version_android_pad,
  get_version,
}

-- `Protocol::try_from` of a text and of a number.
unfoldable pub protocol_of_name : List ℕ → Option Protocol
protocol_of_name s =
    if same_bytes s (codes "IPad")
    then some ipad
    else if same_bytes s (codes "AndroidPhone") || same_bytes s (codes "APhone")
    then some android_phone
    else if same_bytes s (codes "AndroidWatch") || same_bytes s (codes "AWatch")
    then some android_watch
    else if same_bytes s (codes "AndroidPad") || same_bytes s (codes "APad")
    then some android_pad
    else if same_bytes s (codes "MacOS")
    then some macos
    else if same_bytes s (codes "QiDian")
    then some qidian
    else none

unfoldable pub protocol_of_number : ℕ → Option Protocol
protocol_of_number u =
    if u == 0 || u == 5
    then some ipad
    else if u == 1
    then some android_phone
    else if u == 2
    then some android_watch
    else if u == 3
    then some macos
    else if u == 4
    then some qidian
    else if u == 6
    then some android_pad
    else none

-- The name and the number of a protocol.
abbrev pub name_of : Protocol → List ℕ
name_of ipad = codes "IPad"
name_of android_phone = codes "AndroidPhone"
name_of android_watch = codes "AndroidWatch"
name_of android_pad = codes "AndroidPad"
name_of macos = codes "MacOS"
name_of qidian = codes "QiDian"

abbrev pub number_of : Protocol → ℕ
number_of ipad = 0
number_of android_phone = 1
number_of android_watch = 2
number_of android_pad = 6
number_of macos = 3
number_of qidian = 4

-- Of every version a login asks at least for these tickets.
abbrev pub AsksFor : ℕ → ℕ → Type 0
AsksFor ticket map = bit_or map ticket ≡ map

-- Every protocol is read from its name and from its number, and its version is one of the protocol, whose
-- login asks at least for the tickets A2, ST, SKEY, D2 and PSKEY.
pub get_version-protocol :
    (p : Protocol)
    → (protocol_of_name (name_of p) ≡ some p)
      × (protocol_of_number (number_of p) ≡ some p)
      × ((get_version p).protocol ≡ p)
      × AsksFor wlogin_a2 (get_version p).main_sig_map
      × AsksFor wlogin_st (get_version p).main_sig_map
      × AsksFor wlogin_skey (get_version p).main_sig_map
      × AsksFor wlogin_d2 (get_version p).main_sig_map
      × AsksFor wlogin_pskey (get_version p).main_sig_map
unfolding get_version protocol_of_name protocol_of_number same_bytes version_android_phone
    version_ipad version_android_watch version_macos version_qidian version_android_pad
get_version-protocol ipad = (refl, refl, refl, refl, refl, refl, refl, refl)
get_version-protocol android_phone = (refl, refl, refl, refl, refl, refl, refl, refl)
get_version-protocol android_watch = (refl, refl, refl, refl, refl, refl, refl, refl)
get_version-protocol android_pad = (refl, refl, refl, refl, refl, refl, refl, refl)
get_version-protocol macos = (refl, refl, refl, refl, refl, refl, refl, refl)
get_version-protocol qidian = (refl, refl, refl, refl, refl, refl, refl, refl)

-- The maps that the source writes as kinds of tickets are the numbers of its comments.
commented_maps :
    (version_android_phone.main_sig_map ≡ 16724722)
    × (version_apad.main_sig_map ≡ 16724722)
    × (version_ipad.main_sig_map ≡ 1970400)
unfolding version_android_phone version_apad version_ipad
commented_maps = (refl, refl, refl)
