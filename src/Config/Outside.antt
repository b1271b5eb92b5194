-- ===== src/Config/Outside.antt =====
-- What the standard library gives src/config.rs: socket addresses, the parsing of numbers and flags, and floating point.
use Prim.Native.String.{String}
use iroh_raft.Common.{ℕ, ◌≡◌, Bool, true, List, Option, Outcome}
use iroh_raft.Common.Equality.{Eq}

-- `random_port` is "127.0.0.1:0", `split_trimmed` splits at commas and trims the parts, and an error of a parser comes as its text.
-- A sampling rate of a tenth is between 0 and 1.
pub record Host : Type 1 where
  pub SocketAddr : Type 0
  pub address_eq : Eq SocketAddr
  pub display : SocketAddr → String
  pub parse_address : String → Outcome String SocketAddr
  pub random_port : SocketAddr
  pub split_trimmed : String → List String
  pub parse_u64 : String → Outcome String ℕ
  pub parse_bool : String → Option Bool
  pub F64 : Type 0
  pub tenth : F64
  pub in_unit_interval : F64 → Bool
  pub in_unit_interval-tenth : in_unit_interval tenth ≡ true
