-- ===== src/Core/Hardware.antt =====
-- crates/pax-core/src/hardware.rs: vendors, silicon families and controller models.
use pax.Prelude.{ℕ, ◌/◌, ◌%◌, Option, none, some, ◌++◌, ◌==◌, if◌then◌else◌}
use pax.Str.{Str, codes, upper_byte}

pub record CompanyId : Type 0 where
  pub id : ℕ

abbrev pub apple : CompanyId
apple = record { id = 0x004C }

unfoldable pub company_name : CompanyId → Option Str
company_name c =
    if c.id == 0x0000
    then some (codes "Ericsson Technology Licensing")
    else if c.id == 0x0002
    then some (codes "Intel Corp.")
    else if c.id == 0x000A
    then some (codes "Cambridge Silicon Radio")
    else if c.id == 0x000F
    then some (codes "Broadcom Corporation")
    else if c.id == 0x001D
    then some (codes "Qualcomm")
    else if c.id == 0x004C
    then some (codes "Apple, Inc.")
    else if c.id == 0x0059
    then some (codes "Nordic Semiconductor ASA")
    else if c.id == 0x005D
    then some (codes "Realtek Semiconductor")
    else if c.id == 0x0131
    then some (codes "Cypress Semiconductor")
    else none

-- `Display`: the name, or `0x{:04X}` of the id.
unfoldable pub display_company : CompanyId → Str
unfolding company_name upper_byte
display_company c = elim (company_name c) [
  | some n ↦ n
  | none ↦ codes "0x" ++ upper_byte (c.id / 256) ++ upper_byte (c.id % 256)
]

pub data ChipsetFamily : Type 0 where
  apple_combo broadcom intel qualcomm realtek nordic csr virtual unknown : ChipsetFamily

unfoldable pub from_company : CompanyId → ChipsetFamily
from_company c =
    if c.id == 0x004C
    then apple_combo
    else if c.id == 0x0002
    then intel
    else if c.id == 0x000F
    then broadcom
    else if c.id == 0x0131
    then broadcom
    else if c.id == 0x001D
    then qualcomm
    else if c.id == 0x005D
    then realtek
    else if c.id == 0x0059
    then nordic
    else if c.id == 0x000A
    then csr
    else unknown

unfoldable pub display_family : ChipsetFamily → Str
display_family apple_combo = codes "Apple combo"
display_family broadcom = codes "Broadcom"
display_family intel = codes "Intel"
display_family qualcomm = codes "Qualcomm"
display_family realtek = codes "Realtek"
display_family nordic = codes "Nordic"
display_family csr = codes "CSR"
display_family virtual = codes "virtual"
display_family unknown = codes "unknown"

pub record ControllerModel : Type 0 where
  pub manufacturer : CompanyId
  pub family : ChipsetFamily
  pub model : Str

abbrev pub virtual_model : Str → ControllerModel
virtual_model m = record { manufacturer = record { id = 0xFFFF }; family = virtual; model = m }

unfoldable pub model_label : ControllerModel → Str
unfolding display_company display_family
model_label m =
    display_company m.manufacturer
    ++ codes " "
    ++ m.model
    ++ codes " ("
    ++ display_family m.family
    ++ codes ")"
