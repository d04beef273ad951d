-- ===== src/Cli.antt =====
-- crates/pax-cli/src/main.rs: the arguments of the command line tool that are parsed by hand, and
-- the commands on GATT values, on the local address and on batches.
pub mod Hex
pub mod Gatt
mod Tests
use pax.Prelude.{ℕ, Bool, true, false, Option, none, some, List, [], ◌∷◌, ◌++◌, if◌then◌else◌}
use pax.Str.{Str, codes, decimal}
use pax.Core.Error.{Error}
use pax.Core.Address.{BdAddr}
use pax.Core.Address
use pax.Core.Device.{DeviceId, display_id, parse_id}
use pax.Transport.Error.{TransportError, Op}
use pax.Transport.Error as Operational
use pax.Transport.Backend.{Backend, kind_name}
use pax.Pairing.Device.{PairReport}
use pax.Pairing.Batch.{PairItem}

-- `anyhow::Error`: an error of a crate or of the standard library, a message, or another error
-- with a context in front.
pub data Failure : Type 0 where
  transport : TransportError → Failure
  core : Error → Failure
  parse_int : Failure
  message : Str → Failure
  context : Str → Failure → Failure

-- What a command comes to.
pub data Outcome (A : Type 0) : Type 0 where
  returned : A → Outcome A
  fails : Failure → Outcome A
  panics : Outcome A

-- The state of the backend, and the lines that were printed.
pub record Console (S : Type 0) : Type 0 where
  pub state : S
  pub printed : List Str

abbrev pub Step : Type 0 → Type 0 → Type 0
Step S A = Console S → Outcome A × Console S

infixl 5 ◌>>=◌ ◌>>◌
abbrev pub ◌>>=◌ : {S A B : Type 0} → Step S A → (A → Step S B) → Step S B
◌>>=◌ m f st =
    let (r, st1) = m st in
    elim r [ returned a ↦ f a st1 | fails e ↦ (fails e, st1) | panics ↦ (panics, st1) ]

abbrev pub ◌>>◌ : {S B : Type 0} → Step S (Unit {0}) → Step S B → Step S B
m >> k = m >>= λ _. k

module _ {S : Type 0} where
  -- `?` on an operation of the backend.
  abbrev pub call : {A : Type 0} → Op S A → Step S A
  call op st =
      let (r, s1) = op st.state in
      elim r [
        | pax.Transport.Error.ok a ↦ (returned a, record st { state = s1 })
        | pax.Transport.Error.err e ↦ (fails (transport e), record st { state = s1 })
      ]

  -- `let _ = ..`.
  abbrev pub attempt : {A : Type 0} → Op S A → Step S (Unit {0})
  attempt op st = (returned tt, record st { state = (op st.state).1 })

  abbrev pub println : Str → Step S (Unit {0})
  println line st = (returned tt, record st { printed = st.printed ++ line ∷ [] })

  -- `?` on a value that does not touch the state.
  abbrev pub pure : {A : Type 0} → Outcome A → Step S A
  pure r st = (r, st)

abbrev pub of_core : {A : Type 0} → pax.Core.Error.Result A → Outcome A
of_core (pax.Core.Error.ok a) = returned a
of_core (pax.Core.Error.err e) = fails (core e)

abbrev pub with_context : {A : Type 0} → Str → Outcome A → Outcome A
with_context text (returned a) = returned a
with_context text (fails e) = fails (context text e)
with_context text panics = panics

-- The ids up to the first text that does not parse.
unfoldable pub parse_ids : List Str → Outcome (List DeviceId)
unfolding parse_id
parse_ids [] = returned []
parse_ids (a ∷ texts) = elim (parse_id a) [
  | pax.Core.Error.err e ↦ fails (context (codes "invalid address") (core e))
  | pax.Core.Error.ok id ↦ elim (parse_ids texts) [
    | returned ids ↦ returned (id ∷ ids)
    | fails e ↦ fails e
    | panics ↦ panics
  ]
]

abbrev pub status_of : PairItem → Str
status_of item = elim item.outcome [
  | pax.Transport.Error.ok report ↦ codes "paired"
  | pax.Transport.Error.err e ↦ codes "failed (" ++ Operational.display e ++ codes ")"
]

-- The line of an item.
unfoldable pub item_line : PairItem → Str
unfolding display_id decimal Operational.display
item_line item =
    codes "  "
    ++ display_id item.id
    ++ codes " -> "
    ++ status_of item
    ++ codes " ("
    ++ decimal item.attempts
    ++ codes " attempt(s))"

unfoldable pub print_items : {S : Type 0} → List PairItem → Step S (Unit {0})
unfolding item_line
print_items [] = pure (returned tt)
print_items (item ∷ items) = do println (item_line item); print_items items

-- The backend that is compiled in, by its features.
pub data Choice : Type 0 where
  mock bluez btleplug : Choice

unfoldable pub default_backend : Bool → Bool → Choice
default_backend has_bluez has_btleplug =
    if has_bluez then bluez else if has_btleplug then btleplug else mock

module _ {S A : Type 0} (b : Backend S A) where
  -- The part of `spoof_local` behind the address: the capability is checked first.
  unfoldable pub spoof_to : BdAddr → Step S (Unit {0})
  unfolding Address.display
  spoof_to addr st =
      let caps = b.capabilities st.state in
      let (r, st1) = call (b.set_local_address addr) st in
      if caps.can_spoof_address
      then (with_context (codes "setting local address to " ++ Address.display addr) r, st1)
      else (
        fails (
            message (
              codes "the `"
              ++ kind_name caps.kind
              ++ codes "` backend cannot spoof a local address "
              ++ 0xE2 ∷ 0x80 ∷ 0x94 ∷ codes " use --backend bluez (Linux) or --backend mock")),
        st,
      )

  unfoldable pub spoof_local : Str → Step S (Unit {0})
  unfolding spoof_to Address.parse
  spoof_local text = do
    addr ← pure (with_context (codes "invalid spoof address") (of_core (Address.parse text)))
    spoof_to addr
