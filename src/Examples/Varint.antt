-- ===== src/Examples/Varint.antt =====
-- Encoded numbers, bffhd/utils/varint.rs.
use fabaccess_server.Prelude.{◌≡◌, some, [], ◌∷◌, arith}
use fabaccess_server.Utils.Varint.{VarUint, from, into, u32}
use fabaccess_server.Utils.Varint.RoundTrip.{into-from}

into-from_example : (v : VarUint) × (from 5 70000 ≡ some v) × (into 32 v ≡ some 70000)
into-from_example = into-from u32 70000 (omega arith)

abbrev encoded : VarUint
encoded = record { offset = 1; bytes = 0 ∷ 0x82 ∷ 0x2c ∷ [] }
