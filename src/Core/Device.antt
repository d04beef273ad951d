-- ===== src/Core/Device.antt =====
-- crates/pax-core/src/device.rs: device ids, the Class-of-Device field and device snapshots.
pub mod Class
use Prim.Native.Nat.{bit_and}
use pax.Prelude.{
  ℕ, ◌/◌, ◌%◌, ◌^◌, Bool, false, Option, none, some, List, [], ◌∷◌, ◌++◌, ℤ, ◌==◌, if◌then◌else◌,
  ℕ_discrete,
}
use pax.Str.{Str, codes}
use pax.Core.Error.{Result, ok, err}
use pax.Core.Address.{BdAddr, AddressType, is_public, is_random, nil_octets}
use pax.Core.Address
use pax.Core.Hardware.{CompanyId}

pub record DeviceId : Type 0 where
  pub addr : BdAddr
  pub addr_type : AddressType

unfoldable pub DeviceId-discrete : Discrete DeviceId
DeviceId-discrete = hlevel ℕ_discrete

abbrev pub public_id : BdAddr → DeviceId
public_id a = record { addr = a; addr_type = is_public }

abbrev pub random_id : BdAddr → DeviceId
random_id a = record { addr = a; addr_type = is_random }

-- `DeviceId::default()`: the nil address.
abbrev pub default_id : DeviceId
default_id = public_id (record { octets = nil_octets })

unfoldable pub display_id : DeviceId → Str
unfolding Address.display
display_id d = elim d.addr_type [
  | is_public ↦ Address.display d.addr
  | is_random ↦ Address.display d.addr ++ codes " (random)"
]

unfoldable pub parse_id : Str → Result DeviceId
unfolding Address.parse
parse_id s = elim (Address.parse s) [ ok a ↦ ok (public_id a) | err e ↦ err e ]

pub data MajorDeviceClass : Type 0 where
  miscellaneous computer phone network_access_point audio_video : MajorDeviceClass
  peripheral imaging wearable toy health uncategorized : MajorDeviceClass

unfoldable pub from_field : ℕ → MajorDeviceClass
from_field field =
    if field == 0x00
    then miscellaneous
    else if field == 0x01
    then computer
    else if field == 0x02
    then phone
    else if field == 0x03
    then network_access_point
    else if field == 0x04
    then audio_video
    else if field == 0x05
    then peripheral
    else if field == 0x06
    then imaging
    else if field == 0x07
    then wearable
    else if field == 0x08
    then toy
    else if field == 0x09
    then health
    else uncategorized

pub record ClassOfDevice : Type 0 where
  pub raw : ℕ

-- `raw & 0x00FF_FFFF`: the low 24 bits.
unfoldable pub new_class : ℕ → ClassOfDevice
new_class raw = record { raw = raw % 2 ^ 24 }

-- `((raw >> 8) & 0b1_1111) as u8`.
unfoldable pub major : ClassOfDevice → MajorDeviceClass
unfolding from_field
major c = from_field (c.raw / 2 ^ 8 % 2 ^ 5)

-- `((raw >> 13) & 0x07FF) as u16`.
unfoldable pub service_bits : ClassOfDevice → ℕ
service_bits c = c.raw / 2 ^ 13 % 2 ^ 11

pub record DeviceInfo : Type 0 where
  pub id : DeviceId
  pub name : Option Str
  pub class : Option ClassOfDevice
  pub rssi : Option ℤ
  pub tx_power : Option ℤ
  pub paired : Bool
  pub connected : Bool
  pub manufacturer_data : List (CompanyId × List ℕ)
  pub services : List Str

abbrev pub new_info : DeviceId → DeviceInfo
new_info id = record {
  id = id;
  name = none;
  class = none;
  rssi = none;
  tx_power = none;
  paired = false;
  connected = false;
  manufacturer_data = [];
  services = [];
}

abbrev pub with_name : DeviceInfo → Str → DeviceInfo
with_name i n = record i { name = some n }

abbrev pub with_rssi : DeviceInfo → ℤ → DeviceInfo
with_rssi i r = record i { rssi = some r }

abbrev pub with_class : DeviceInfo → ClassOfDevice → DeviceInfo
with_class i c = record i { class = some c }

abbrev pub with_manufacturer_data : DeviceInfo → CompanyId → List ℕ → DeviceInfo
with_manufacturer_data i c d = record i { manufacturer_data = i.manufacturer_data ++ (c, d) ∷ [] }

abbrev pub with_service : DeviceInfo → Str → DeviceInfo
with_service i u = record i { services = i.services ++ u ∷ [] }

unfoldable pub info_label : DeviceInfo → Str
unfolding display_id
info_label i = elim i.name [
  | some n ↦ n ++ codes " [" ++ display_id i.id ++ codes "]"
  | none ↦ display_id i.id
]
