-- ===== src/Routerd/Cli/Tests.antt =====
-- The command line and the start of the routing daemon at concrete inputs.
use in4230_mip.Prelude.{ℕ, ◌-◌, ◌≡◌, refl, true, false, Option, none, some, List, [], ◌∷◌, arith}
use in4230_mip.Commons.LinkedList.{LinkedList, plain}
use in4230_mip.Commons.Strings.{c_string, starts_with}
use in4230_mip.Routerd.Cli.{
  RouterdConfig, flagged, help_flag, debug_flag, parse_args, parse_args_lem,
}
use in4230_mip.Routerd.Startup.{create_initialized, create_initialized-parse_args}
use in4230_mip.Routerd.Table.{RouteEntry}

-- a digit
abbrev digit : List ℕ → Option ℕ
digit [] = none
digit (b ∷ rest) = some (b - 48)

no_help : starts_with help_flag (c_string (114 ∷ [])) ≡ some false
unfolding starts_with
no_help = refl

no_debug : starts_with debug_flag (c_string (114 ∷ [])) ≡ some false
unfolding starts_with
no_debug = refl

abbrev addresses : LinkedList ℕ
addresses = plain ℕ

-- -d r f 5 6
parse_args_lem_example :
    (config : RouterdConfig addresses) × parse_args addresses digit
        (flagged true ((114 ∷ 0 ∷ []) ∷ (102 ∷ 0 ∷ []) ∷ (53 ∷ 0 ∷ []) ∷ (54 ∷ 0 ∷ []) ∷ []))
      ≡ some (some config)
    × config.routing_socket ≡ some (114 ∷ [])
    × config.forwarding_socket ≡ some (102 ∷ 0 ∷ [])
    × config.mip_addresses ≡ 5 ∷ 6 ∷ []
    × config.debug_active ≡ 1
parse_args_lem_example =
    parse_args_lem addresses digit (114 ∷ []) (102 ∷ []) ((53 ∷ 0 ∷ []) ∷ (54 ∷ 0 ∷ []) ∷ [])
      (ground arith, tt) (ground arith, tt) true no_help no_debug (omega arith) (omega arith)

create_initialized-parse_args_example :
    (config : RouterdConfig addresses) × parse_args addresses digit
        (flagged true ((114 ∷ 0 ∷ []) ∷ (102 ∷ 0 ∷ []) ∷ (53 ∷ 0 ∷ []) ∷ []))
      ≡ some (some config)
    × create_initialized (plain RouteEntry) addresses (λ i. 0) config ≡ none
create_initialized-parse_args_example =
    create_initialized-parse_args (plain RouteEntry) addresses digit (λ i. 0) (114 ∷ []) (102 ∷ [])
      ((53 ∷ 0 ∷ []) ∷ []) true (ground arith, tt) (ground arith, tt) no_help no_debug (omega arith)
      (omega arith)
