-- ===== src/Core/Peer.antt =====
-- crates/pax-core/src/peer.rs: guessing the platform of a peer. `to_lowercase` of the standard
-- library, which follows the Unicode tables, is a parameter.
use pax.Prelude.{Bool, true, false, Option, none, some, List, [], ◌∷◌, ◌==◌, if◌then◌else◌, any}
use pax.Str.{Str, codes, contains}
use pax.Core.Device.{DeviceInfo, MajorDeviceClass, ClassOfDevice, computer, phone, major}
use pax.Core.Hardware.{apple}

pub data PeerPlatform : Type 0 where
  android iphone apple_mac windows unknown : PeerPlatform

unfoldable pub supports_obex_push : PeerPlatform → Bool
supports_obex_push android = true
supports_obex_push apple_mac = true
supports_obex_push windows = true
supports_obex_push iphone = false
supports_obex_push unknown = false

unfoldable pub platform_label : PeerPlatform → Str
platform_label android = codes "Android"
platform_label iphone = codes "iPhone/iOS"
platform_label apple_mac = codes "Mac"
platform_label windows = codes "Windows"
platform_label unknown = codes "unknown"

unfoldable pub is_apple : DeviceInfo → Bool
is_apple info = any (λ e. e.0.id == apple.id) info.manufacturer_data

abbrev pub iphone_hints : List Str
iphone_hints = codes "iphone" ∷ codes "ipad" ∷ codes "ipod" ∷ []

abbrev pub mac_hints : List Str
mac_hints =
    codes "macbook" ∷ codes "imac" ∷ codes "mac mini" ∷ codes "mac studio" ∷ codes "mac pro" ∷ []

abbrev pub android_hints : List Str
android_hints =
    codes "android"
    ∷ codes "galaxy"
    ∷ codes "pixel"
    ∷ codes "oneplus"
    ∷ codes "xiaomi"
    ∷ codes "redmi"
    ∷ codes "oppo"
    ∷ codes "vivo"
    ∷ codes "nexus"
    ∷ []

abbrev pub windows_hints : List Str
windows_hints = codes "surface" ∷ codes "windows" ∷ []

-- Whether the name holds one of the words, tried in order.
unfoldable pub mentions : List Str → Str → Bool
mentions hints n = any (λ h. contains h n) hints

-- The first part: the verdict of the name, if it has one.
unfoldable pub by_name : Str → Option PeerPlatform
by_name n =
    if mentions iphone_hints n
    then some iphone
    else if mentions mac_hints n
    then some apple_mac
    else if mentions android_hints n
    then some android
    else if mentions windows_hints n
    then some windows
    else none

abbrev major_of : Option ClassOfDevice → Option MajorDeviceClass
major_of none = none
major_of (some c) = some (major c)

-- An Apple company id, refined by the class.
abbrev apple_by_class : Option MajorDeviceClass → PeerPlatform
apple_by_class (some computer) = apple_mac
apple_by_class (some phone) = iphone
apple_by_class _ = iphone

abbrev other_by_class : Option MajorDeviceClass → PeerPlatform
other_by_class (some phone) = android
other_by_class _ = unknown

-- The second and third parts.
unfoldable pub by_hardware : DeviceInfo → PeerPlatform
unfolding is_apple
by_hardware info =
    if is_apple info
    then apple_by_class (major_of info.class)
    else other_by_class (major_of info.class)

module _ (to_lowercase : Str → Str) where
  unfoldable pub detect_platform : DeviceInfo → PeerPlatform
  detect_platform info = elim info.name [
    | none ↦ by_hardware info
    | some name ↦ elim (by_name (to_lowercase name)) [ some p ↦ p | none ↦ by_hardware info ]
  ]
