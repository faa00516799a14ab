-- ===== src/Miptpd/Config/Tests.antt =====
-- The command line of the transport daemon at concrete inputs.
use in4230_mip.Prelude.{◌≡◌, some, [], ◌∷◌, arith}
use in4230_mip.Miptpd.Config.{config_create}
use in4230_mip.Miptpd.Config.Startup.{config_create_lem}

-- "m" and "ap": of the second, one byte comes over
config_create_lem_example :
    config_create (109 ∷ 0 ∷ []) (97 ∷ 112 ∷ 0 ∷ []) 1 1000
    ≡ some (
        some (record {
          mipd_socket = 109 ∷ [];
          app_socket = 97 ∷ 0 ∷ [];
          debug_active = 1;
          timeout = 1000;
        }))
config_create_lem_example =
    config_create_lem (109 ∷ []) (97 ∷ 112 ∷ []) (ground arith, tt)
      (ground arith, (ground arith, tt)) 1 1000 (omega arith) (omega arith)
