-- ===== src/Config/Tests.antt =====
-- The settings on a concrete host, with addresses as their texts.
use Prim.Native.String.{String}
use iroh_raft.Common.{ℕ, ◌≡◌, ◌↔◌, refl, leb, [], ◌∷◌, none, ok, err}
use iroh_raft.Common.Equality.{string_eq}
use iroh_raft.Config.Outside.{Host}
use iroh_raft.Config.Types.{Config}
use iroh_raft.Config.{validate}
use iroh_raft.Config.Builder.{node_id, development_preset}
use iroh_raft.Config.Validity.{IsValid, validate_iff}

-- A rate is a number of thousandths.
abbrev texts : Host
texts = record {
  SocketAddr = String;
  address_eq = string_eq;
  display = λ (a : String). a;
  parse_address = λ (a : String). ok a;
  random_port = "127.0.0.1:0";
  split_trimmed = λ (a : String). a ∷ [];
  parse_u64 = λ (a : String). err "invalid digit found in string";
  parse_bool = λ (a : String). none;
  F64 = ℕ;
  tenth = 100;
  in_unit_interval = λ (rate : ℕ). leb rate 1000;
  in_unit_interval-tenth = refl;
}

abbrev pair : Config texts
pair = node_id texts (development_preset texts) 1

validate_iff_example : (validate texts pair ≡ ok tt) ↔ IsValid texts pair
validate_iff_example = validate_iff texts pair
