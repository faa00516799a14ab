-- ===== src/Routerd/Cli.antt =====
-- The command line of the routing daemon, routerd/src/lib/cli.c. An argument is a block with a string,
-- and the arguments are those behind the program's name. `sscanf` is the C library's: what it reads
-- from a block as a number of eight bits is given. The outer option is a fault of memory, the inner
-- NULL.
mod Tests
use in4230_mip.Prelude.{
  ℕ, suc, ◌+◌, ◌<◌, ◌≡◌, refl, ap, ◌∙◌, Bool, true, false, Option, none, some, List, [], ◌∷◌, ◌++◌,
  map, if◌then◌else◌, ltb, length, length-append, sym, read_at, read_at-append, read_at_all, ◌>>=◌,
  arith,
}
use mathlib.Core.List.{append_assoc, append-nil}
use in4230_mip.Commons.LinkedList.{LinkedList}
use in4230_mip.Commons.Strings.{strlen, starts_with, c_string, NoEnd, strlen_string}

-- A path is NULL until it is set.
pub record RouterdConfig (A : LinkedList ℕ) : Type 0 where
  pub routing_socket : Option (List ℕ)
  pub forwarding_socket : Option (List ℕ)
  pub mip_addresses : A.Handle
  pub debug_active : ℕ
  pub broadcast_freq : ℕ

-- `BROADCAST_FREQ_MILLI`
abbrev pub broadcast_freq_milli : ℕ
broadcast_freq_milli = 2000

-- "-h" and "-d"
abbrev pub help_flag : List ℕ
help_flag = 45 ∷ 104 ∷ []

abbrev pub debug_flag : List ℕ
debug_flag = 45 ∷ 100 ∷ []

-- the arguments with "-d" in front, or without
abbrev pub flagged : Bool → List (List ℕ) → List (List ℕ)
flagged true args = c_string debug_flag ∷ args
flagged false args = args

-- a string read without its end, and with it
read_string : (s : List ℕ) → read_at (c_string s) 0 (length s) ≡ some s
read_string s = read_at-append [] s (0 ∷ []) 0 (length s) refl refl

read_all : (s : List ℕ) → read_at (c_string s) 0 (length s + 1) ≡ some (c_string s)
read_all s = read_at_all (c_string s) (length s + 1) (omega (arith, length-append s (0 ∷ [])))

module _ (A : LinkedList ℕ) (scan_u8 : List ℕ → Option ℕ) where
  -- the number that an argument stands for: one that `sscanf` does not read is 0
  abbrev pub address_of : List ℕ → ℕ
  address_of block = elim (scan_u8 block) [ none ↦ 0 | some address ↦ address ]

  -- The addresses, from the arguments behind the two paths.
  unfoldable pub push_addresses : List (List ℕ) → A.Handle → A.Handle
  push_addresses [] addresses = addresses
  push_addresses (block ∷ rest) addresses =
      push_addresses rest (A.push addresses (address_of block))

  -- The path of the forwarding socket, copied with its end, and the addresses.
  unfoldable pub with_forwarding :
      RouterdConfig A → List (List ℕ) → Option (Option (RouterdConfig A))
  with_forwarding config [] = some (some config)
  with_forwarding config (block ∷ rest) = do
    n ← strlen block
    path ← read_at block 0 (n + 1)
    some (
        some (record config {
          forwarding_socket = some path;
          mip_addresses = push_addresses rest config.mip_addresses;
        }))

  -- The path of the routing socket, copied without its end. Without an argument it is `argv[argc]`,
  -- which is NULL.
  unfoldable pub with_routing : RouterdConfig A → List (List ℕ) → Option (Option (RouterdConfig A))
  unfolding with_forwarding
  with_routing config [] = none
  with_routing config (block ∷ rest) = do
    n ← strlen block
    path ← read_at block 0 n
    with_forwarding (record config { routing_socket = some path }) rest

  abbrev pub empty_config : RouterdConfig A
  empty_config = record {
    routing_socket = none;
    forwarding_socket = none;
    mip_addresses = A.create;
    debug_active = 0;
    broadcast_freq = broadcast_freq_milli;
  }

  -- The first pass of the loop of `RouterdConfig_create`, by what the first argument starts with.
  unfoldable pub first_argument :
      Bool → Bool → List ℕ → List (List ℕ) → Option (Option (RouterdConfig A))
  unfolding with_routing
  first_argument true debug block rest = some none
  first_argument false true block rest =
      with_routing (record empty_config { debug_active = 1 }) rest
  first_argument false false block rest = with_routing empty_config (block ∷ rest)

  -- `RouterdConfig_create`
  unfoldable pub config_create : List (List ℕ) → Option (Option (RouterdConfig A))
  unfolding first_argument
  config_create [] = some (some empty_config)
  config_create (block ∷ rest) = do
    help ← starts_with help_flag block
    debug ← starts_with debug_flag block
    first_argument help debug block rest

  -- `parse_args`
  unfoldable pub parse_args : List (List ℕ) → Option (Option (RouterdConfig A))
  unfolding config_create
  parse_args args =
      if ltb 3 (suc (length args))
      then (if ltb (suc (length args)) 258 then config_create args else some none)
      else some none

  items-push_addresses :
      (blocks : List (List ℕ)) (addresses : A.Handle)
      → A.items (push_addresses blocks addresses) ≡ A.items addresses ++ map address_of blocks
  unfolding push_addresses
  items-push_addresses [] addresses = sym (append-nil (A.items addresses))
  items-push_addresses (block ∷ rest) addresses =
      items-push_addresses rest (A.push addresses (address_of block))
      ∙ (ap (λ xs. xs ++ map address_of rest) (A.items-push addresses (address_of block))
          ∙ append_assoc (A.items addresses) (address_of block ∷ []) (map address_of rest))

  -- the configuration of two paths and arguments for addresses
  abbrev pub config_of : ℕ → List ℕ → List ℕ → List (List ℕ) → RouterdConfig A
  config_of debug_active routing forwarding blocks = record {
    routing_socket = some routing;
    forwarding_socket = some (c_string forwarding);
    mip_addresses = push_addresses blocks A.create;
    debug_active = debug_active;
    broadcast_freq = broadcast_freq_milli;
  }

  module _ (routing forwarding : List ℕ) (blocks : List (List ℕ)) (hr : NoEnd routing)
      (hf : NoEnd forwarding) where
    with_routing_lem :
        (debug_active : ℕ)
        → with_routing
            (record empty_config { debug_active = debug_active })
            (c_string routing ∷ c_string forwarding ∷ blocks)
          ≡ some (some (config_of debug_active routing forwarding blocks))
    unfolding with_routing
    with_routing_lem debug_active =
        rw
          (
            strlen_string routing hr,
            read_string routing,
            strlen_string forwarding hf,
            read_all forwarding,
          )
          refl

    config_create-flagged :
        (debug : Bool)
        → starts_with help_flag (c_string routing) ≡ some false
        → starts_with debug_flag (c_string routing) ≡ some false
        → config_create (flagged debug (c_string routing ∷ c_string forwarding ∷ blocks))
          ≡ some (some (config_of (if debug then 1 else 0) routing forwarding blocks))
    unfolding config_create starts_with
    config_create-flagged true no_help no_debug = with_routing_lem 1
    config_create-flagged false no_help no_debug = rw (no_help, no_debug) (with_routing_lem 0)

    -- With at least three arguments behind the program's name and at most 256, "-d" in front or not,
    -- then a path that starts with neither flag, a second path, and numbers: the daemon is configured
    -- with the two paths, the first copied without its end, with the numbers in order as its
    -- addresses, and in debug mode if "-d" was there.
    pub parse_args_lem :
        (debug : Bool)
        → starts_with help_flag (c_string routing) ≡ some false
        → starts_with debug_flag (c_string routing) ≡ some false
        → 2 < length (flagged debug (c_string routing ∷ c_string forwarding ∷ blocks))
        → length (flagged debug (c_string routing ∷ c_string forwarding ∷ blocks)) < 257
        → (config : RouterdConfig A) × parse_args
              (flagged debug (c_string routing ∷ c_string forwarding ∷ blocks))
            ≡ some (some config)
          × config.routing_socket ≡ some routing
          × config.forwarding_socket ≡ some (c_string forwarding)
          × A.items config.mip_addresses ≡ map address_of blocks
          × config.debug_active ≡ (if debug then 1 else 0)
    unfolding parse_args
    parse_args_lem debug no_help no_debug enough few =
        let args = flagged debug (c_string routing ∷ c_string forwarding ∷ blocks) in
        let config = config_of (if debug then 1 else 0) routing forwarding blocks in
        let low : ltb 3 (suc (length args)) ≡ true = ground arith in
        let high : ltb (suc (length args)) 258 ≡ true = ground arith in
        (
          config,
          rw (low, high) (config_create-flagged debug no_help no_debug),
          refl,
          refl,
          items-push_addresses blocks A.create ∙ rw A.items-create refl,
          refl,
        )
