-- ===== src/Miptpd/Config.antt =====
-- The command line of the transport daemon, miptpd/src/lib/miptp_config.c. An argument is a block with a string. `getopt` and `sscanf` are the C
-- library's: the options that `getopt` returns, and the arguments it leaves behind them, are given,
-- and so is what `sscanf` reads from a block. The outer option is a fault of memory, the inner NULL.
use in4230_mip.Prelude.{
  ℕ, ◌≤◌, ◌<◌, min, take-length, ◌≡◌, refl, sym, ap, ◌∙◌, Option, none, some, List, [], ◌∷◌, ◌++◌,
  if◌then◌else◌, ltb, not, ◌==◌, ◌%◌, length, length-append, length-take, length-replicate,
  drop-replicate, ◌+◌, ◌-◌, take, replicate, u16_mod, read_at, read_at_within, read_at_past,
  write_at, write_at-append, write_at_past, take_within, ◌>>=◌, arith, Bool, true, false, leb,
  Bool-cases, inl, inr,
}
pub mod Startup
mod Tests
use mathlib.Core.List.{append-nil}
use in4230_mip.Commons.LinkedList.{LinkedList}
use in4230_mip.Commons.Strings.{strnlen, c_string, NoEnd, strnlen_string, strnlen_past}
use in4230_mip.Miptpd.Connection.{AppConnection}
use in4230_mip.Commons.Sockets.{bound_socket_create}
use in4230_mip.Miptpd.Setup.{MiptpServer, server_create, server_made}

-- `debug_active` is an unsigned short.
pub record MiptpConfig : Type 0 where
  pub mipd_socket : List ℕ
  pub app_socket : List ℕ
  pub debug_active : ℕ
  pub timeout : ℕ

-- `calloc` and `memcpy`: a zeroed block of one size, and bytes copied to its start
unfoldable pub copy_block : ℕ → List ℕ → ℕ → Option (List ℕ)
copy_block size source n = do bytes ← read_at source 0 n; write_at (replicate size 0) 0 bytes

-- The end of `MIPTPConfig_create`: both copies take the length of `mipd_socket`.
unfoldable pub config_copied : List ℕ → List ℕ → ℕ → ℕ → ℕ → ℕ → Option (Option MiptpConfig)
config_copied mipd_socket app_socket n_mipd n_app debug_active timeout = do
  mipd_copy ← copy_block n_mipd mipd_socket (min n_mipd 256)
  app_copy ← copy_block n_app app_socket (min n_mipd 256)
  some (
      some (record {
        mipd_socket = mipd_copy;
        app_socket = app_copy;
        debug_active = debug_active % u16_mod;
        timeout = timeout;
      }))

-- `MIPTPConfig_create`
unfoldable pub config_create : List ℕ → List ℕ → ℕ → ℕ → Option (Option MiptpConfig)
unfolding config_copied
config_create mipd_socket app_socket debug_active timeout = do
  n_mipd ← strnlen mipd_socket 257
  n_app ← strnlen app_socket 257
  let copied = config_copied mipd_socket app_socket n_mipd n_app debug_active timeout
  (if not (ltb n_mipd 257) then some none else if not (ltb n_app 257) then some none else copied)

-- What `getopt` returns for an argument with the options "hd".
pub data Opt : Type 0 where
  opt_help opt_debug opt_unknown : Opt

-- The `while` of `MIPTPConfig_parse_arguments`: `none` where it goes to the error.
unfoldable pub parse_options : ℕ → List Opt → Option ℕ
parse_options debug_active [] = some debug_active
parse_options debug_active (opt_help ∷ rest) = none
parse_options debug_active (opt_debug ∷ rest) = parse_options 1 rest
parse_options debug_active (opt_unknown ∷ rest) = none

-- The arguments behind the two paths: each that `sscanf` reads sets the timeout.
unfoldable pub parse_timeout : (List ℕ → Option ℕ) → ℕ → List (List ℕ) → ℕ
parse_timeout scan timeout [] = timeout
parse_timeout scan timeout (block ∷ rest) = elim (scan block) [
  | none ↦ parse_timeout scan timeout rest
  | some n ↦ parse_timeout scan n rest
]

unfoldable pub parse_positional :
    (List ℕ → Option ℕ) → ℕ → List (List ℕ) → Option (Option MiptpConfig)
parse_positional scan debug_active [] = some none
parse_positional scan debug_active (mipd_socket ∷ []) = some none
parse_positional scan debug_active (mipd_socket ∷ app_socket ∷ rest) =
    config_create mipd_socket app_socket debug_active (parse_timeout scan 0 rest)

-- `MIPTPConfig_parse_arguments`
unfoldable pub parse_arguments :
    (List ℕ → Option ℕ) → List Opt → List (List ℕ) → Option (Option MiptpConfig)
unfolding parse_options parse_positional
parse_arguments scan opts rest = elim (parse_options 0 opts) [
  | none ↦ some none
  | some debug_active ↦ parse_positional scan debug_active rest
]
