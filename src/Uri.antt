-- ===== src/Uri.antt =====
-- src/CommonTypes.h, class Uri: the address of an MQTT host, read from and printed as text.
-- An exception of std::stoi is `none`. The protocol field keeps its "://", as in the code.
pub mod RoundTrip
use cpp_sparkplug.Prelude.{
  ℕ, ◌+◌, ◌-◌, Bytes, codes, drop, length, Option, none, some, ◌++◌, [], Bool, if◌then◌else◌,
}
use cpp_sparkplug.Prelude.Int.{ℤ, pos, negsuc, ltb_ℤ}
use cpp_sparkplug.Prelude.Text.{find, substr, stoi, to_string}

pub record Uri : Type 0 where
  pub protocol : Bytes
  pub address : Bytes
  pub port : ℤ

abbrev pub protocol_identifier : Bytes
protocol_identifier = codes "://"

abbrev pub port_separator : Bytes
port_separator = codes ":"

-- The second half of `init`, once the protocol is known and the address begins at `start`.
init_address : Bytes → Bytes → ℕ → Option Uri
init_address uri protocol start = elim (find port_separator uri start) [
  | none ↦ some (record { protocol = protocol; address = drop start uri; port = negsuc 0 })
  | some i ↦
      let port_start = i + length port_separator in
      elim (stoi (drop port_start uri)) [
        | none ↦ none
        | some port ↦ some (record {
          protocol = protocol;
          address = substr uri start (port_start - start - 1);
          port = port;
        })
      ]
]

-- Uri(std::string uri), through `init`.
unfoldable pub init : Bytes → Option Uri
unfolding init_address
init uri = elim (find protocol_identifier uri 0) [
  | none ↦ init_address uri [] 0
  | some i ↦
      let start = i + length protocol_identifier in init_address uri (substr uri 0 start) start
]

unfoldable pub print : Uri → Bytes
print u =
    if ltb_ℤ (pos 0) u.port
    then u.protocol ++ u.address ++ port_separator ++ to_string u.port
    else u.protocol ++ u.address
