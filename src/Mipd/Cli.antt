-- ===== src/Mipd/Cli.antt =====
-- The command line of the link daemon, mipd/src/main/cli.c. An argument is a block with a string, and
-- the arguments are those behind the program's name. `atoi` is the C library's: the number that it
-- reads from a block, modulo 2^8, is given. `none` is a fault of memory.
pub mod Fetch
use in4230_mip.Prelude.{
  ℕ, zero, suc, ◌+◌, ◌-◌, ◌*◌, ◌%◌, ◌≤◌, ◌<◌, ◌≡◌, refl, sym, ap, ◌∙◌, Bool, true, false, Option,
  none, some, List, [], ◌∷◌, ◌++◌, if◌then◌else◌, leb, length, replicate, le32, u8_mod, read_at,
  write_at, ◌>>=◌, Code, minus_one, code, arith,
}
use in4230_mip.Commons.Strings.{strlen, strnlen, strncpy, starts_with}

-- A path is a zeroed block with the string copied to its start.
pub record UserConfig : Type 0 where
  pub is_debug : ℕ
  pub app_socket : List ℕ
  pub route_socket : List ℕ
  pub forward_socket : List ℕ
  pub mip_addresses : List ℕ
  pub num_mip_addresses : ℕ

-- `UserConfig_create`: an address has one byte.
unfoldable pub user_config_create : ℕ → UserConfig
user_config_create mip_address_space_size = record {
  is_debug = 0;
  app_socket = [];
  route_socket = [];
  forward_socket = [];
  mip_addresses = replicate mip_address_space_size 0;
  num_mip_addresses = 0;
}

-- an element of an array of pointers, set to an address
abbrev pub pointer_bytes : ℕ → List ℕ
pointer_bytes address = address ∷ 0 ∷ 0 ∷ 0 ∷ 0 ∷ 0 ∷ 0 ∷ 0 ∷ []

module _ (atoi : List ℕ → ℕ) where
  -- The loop of `fetch_mip_addresses`, whose parameter is an array of pointers: the k-th address is
  -- written as eight bytes at 8 k.
  unfoldable pub fetch_loop : ℕ → List (List ℕ) → List ℕ → Option (Code × List ℕ)
  fetch_loop k [] mip_addresses = some (code k, mip_addresses)
  fetch_loop k (block ∷ rest) mip_addresses =
      write_at mip_addresses (8 * k) (pointer_bytes (atoi block % u8_mod))
      >>= fetch_loop (k + 1) rest

  -- `fetch_mip_addresses`, of the arguments behind the last path
  unfoldable pub fetch_mip_addresses : List (List ℕ) → List ℕ → ℕ → Option (Code × List ℕ)
  unfolding fetch_loop
  fetch_mip_addresses blocks mip_addresses address_n =
      if leb (length blocks) address_n
      then fetch_loop 0 blocks mip_addresses
      else some (minus_one, mip_addresses)

  -- `calloc(1, strlen(argv[offset]) + 1)` and `strncpy`
  unfoldable pub copy_path : List ℕ → Option (List ℕ)
  copy_path block = do
    n ← strlen block
    path ← strncpy block n
    write_at (replicate (n + 1) 0) 0 path

  -- The end of `UserConfig_from_cli`. The inner option is NULL.
  unfoldable pub with_addresses : UserConfig → Code × List ℕ → Option UserConfig
  with_addresses config (minus_one, addresses) = none
  with_addresses config (code n, addresses) =
      some (record config { mip_addresses = addresses; num_mip_addresses = n })

  -- The three paths. Without an argument it is `argv[argc]`, which is NULL, or one behind it.
  unfoldable pub with_paths : UserConfig → ℕ → List (List ℕ) → Option (Option UserConfig)
  with_paths config n_interfaces (app ∷ route ∷ forward ∷ blocks) = do
    app_socket ← copy_path app
    route_socket ← copy_path route
    forward_socket ← copy_path forward
    fetched ← fetch_mip_addresses blocks config.mip_addresses n_interfaces
    some (
        with_addresses
          (record config {
            app_socket = app_socket;
            route_socket = route_socket;
            forward_socket = forward_socket;
          })
          fetched)
  with_paths config n_interfaces _ = none

  unfoldable pub by_debug : Bool → ℕ → List ℕ → List (List ℕ) → Option (Option UserConfig)
  unfolding with_paths
  by_debug true n_interfaces block rest =
      with_paths (record (user_config_create n_interfaces) { is_debug = 1 }) n_interfaces rest
  by_debug false n_interfaces block rest =
      with_paths (user_config_create n_interfaces) n_interfaces (block ∷ rest)

  -- `UserConfig_from_cli`
  unfoldable pub user_config_from_cli : List (List ℕ) → ℕ → Option (Option UserConfig)
  unfolding by_debug
  user_config_from_cli [] n_interfaces = none
  user_config_from_cli (block ∷ rest) n_interfaces = do
    debug ← starts_with (45 ∷ 100 ∷ []) block
    by_debug debug n_interfaces block rest

  -- the addresses of arguments, as elements of an array of pointers
  abbrev pub elements : List (List ℕ) → List ℕ
  elements [] = []
  elements (block ∷ rest) = pointer_bytes (atoi block % u8_mod) ++ elements rest
