-- ===== src/Core/Standards.antt =====
-- crates/pax-core/src/standards.rs: the IEEE 802 standards and the port-auth states.
use pax.Prelude.{◌++◌}
use pax.Str.{Str, codes}

pub data Standard802 : Type 0 where
  wpan80215_1 wpan80215_4 wlan80211 port_auth8021x : Standard802

pub data StandardsLayer : Type 0 where
  radio mac network_access coexistence : StandardsLayer

unfoldable pub dotted : Standard802 → Str
dotted wpan80215_1 = codes "802.15.1"
dotted wpan80215_4 = codes "802.15.4"
dotted wlan80211 = codes "802.11"
dotted port_auth8021x = codes "802.1X"

unfoldable pub title : Standard802 → Str
title wpan80215_1 = codes "WPAN (Bluetooth lineage)"
title wpan80215_4 = codes "Low-Rate WPAN"
title wlan80211 = codes "Wireless LAN"
title port_auth8021x = codes "Port-Based Network Access Control"

unfoldable pub layer : Standard802 → StandardsLayer
layer wpan80215_1 = radio
layer wpan80215_4 = coexistence
layer wlan80211 = coexistence
layer port_auth8021x = network_access

unfoldable pub display_standard : Standard802 → Str
unfolding dotted title
display_standard s = codes "IEEE " ++ dotted s ++ codes " (" ++ title s ++ codes ")"

pub data PortAuthState : Type 0 where
  not_applicable unauthenticated authenticating authenticated auth_failed : PortAuthState

unfoldable pub display_port_auth : PortAuthState → Str
display_port_auth not_applicable = codes "n/a"
display_port_auth unauthenticated = codes "unauthenticated"
display_port_auth authenticating = codes "authenticating"
display_port_auth authenticated = codes "authenticated"
display_port_auth auth_failed = codes "auth-failed"

pub record StandardsProfile : Type 0 where
  pub radio_standard : Standard802
  pub port_auth : PortAuthState

abbrev pub bredr_default : StandardsProfile
bredr_default = record { radio_standard = wpan80215_1; port_auth = not_applicable }

abbrev pub with_radio : StandardsProfile → Standard802 → StandardsProfile
with_radio p s = record p { radio_standard = s }

abbrev pub with_port_auth : StandardsProfile → PortAuthState → StandardsProfile
with_port_auth p s = record p { port_auth = s }
