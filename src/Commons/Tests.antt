-- ===== src/Commons/Tests.antt =====
-- The serializations at concrete messages.
use in4230_mip.Prelude.{
  ℕ, ◌≡◌, refl, ◌+◌, ◌%◌, some, List, [], ◌∷◌, u16_mod, replicate, drop, arith, code, minus_one,
}
use in4230_mip.Commons.ClientPackage
use in4230_mip.Commons.ClientPackage.{ClientPackage, IsPackage, deserialize-serialize_package}
use in4230_mip.Commons.MipdMessage
use in4230_mip.Commons.MipdMessage.{
  MipdMessage, IsMessage, deserialize-serialize_message, serialize_too_large,
}

abbrev hello : ClientPackage
hello = record {
  port = 1024;
  destination = 20;
  client_type = 1;
  data_size = 3;
  content = 7 ∷ 8 ∷ 9 ∷ [];
}

IsPackage-hello : IsPackage hello
IsPackage-hello = record {
  port = omega arith;
  destination = omega arith;
  client_type = omega arith;
  data_size = omega arith;
  content = refl;
}

deserialize-serialize_package_example :
    (out : List ℕ) × (ClientPackage.serialize (replicate 16 5) hello
      ≡ some ((16 + 3) % u16_mod, out))
    × (ClientPackage.deserialize out ≡ some hello)
    × (drop 12 out ≡ 5 ∷ 5 ∷ 5 ∷ 5 ∷ [])
deserialize-serialize_package_example =
    deserialize-serialize_package hello IsPackage-hello (replicate 16 5) (omega arith)

abbrev ping : MipdMessage
ping = record { mip_address = 20; data_size = 2; content = 7 ∷ 8 ∷ [] }

IsMessage-ping : IsMessage ping
IsMessage-ping = record { mip_address = omega arith; data_size = omega arith; content = refl }

deserialize-serialize_message_example :
    (out : List ℕ) × (MipdMessage.serialize (replicate 6 0) ping ≡ some (code 5, out))
    × (MipdMessage.deserialize out ≡ some (some ping))
    × (drop 5 out ≡ 0 ∷ [])
deserialize-serialize_message_example =
    deserialize-serialize_message ping IsMessage-ping (replicate 6 0) (omega arith)

abbrev long : MipdMessage
long = record { mip_address = 20; data_size = 2000; content = replicate 2000 1 }

serialize_too_large_example :
    MipdMessage.serialize (replicate 6 0) long ≡ some (minus_one, replicate 6 0)
serialize_too_large_example = serialize_too_large long (replicate 6 0) (omega arith) (omega arith)
