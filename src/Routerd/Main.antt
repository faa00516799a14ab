-- ===== src/Routerd/Main.antt =====
-- `main` of the routing daemon, routerd/src/main/routerd.c. What the system's calls return is given;
-- `none` is a fault of memory.
use in4230_mip.Prelude.{
  ℕ, ◌<◌, ◌≡◌, refl, Bool, false, Option, none, some, List, [], ◌∷◌, length, ◌>>=◌, Code, minus_one,
  code,
}
use in4230_mip.Commons.LinkedList.{LinkedList}
use in4230_mip.Commons.Strings.{starts_with, c_string, NoEnd}
use in4230_mip.Routerd.Table.{RouteEntry}
use in4230_mip.Routerd.Server.{Turn, Output, Outcome, running, stopping, aborted, run}
use in4230_mip.Routerd.Cli.{RouterdConfig, help_flag, debug_flag, flagged, parse_args}
use in4230_mip.Routerd.Startup.{
  Initialized, create_initialized, init, create_initialized-parse_args,
}

-- The codes of the calls in `RouterServer_init`: `socket` and `connect` for the two paths, and those
-- of epoll.
pub record InitCodes : Type 0 where
  pub routing_rc : Code
  pub routing_connect : Code
  pub forward_rc : Code
  pub forward_connect : Code
  pub epoll_rc : Code
  pub ctl_rc : ℕ → Code

-- What `main` returns, as far as the turns go: the loop still runs, or the code.
pub data Exit : Type 0 where
  still_running : Exit
  exits : Code → Exit

module _ (L : LinkedList RouteEntry) (A : LinkedList ℕ) (scan_u8 : List ℕ → Option ℕ) where
  unfoldable pub exit_of : Outcome → Exit
  exit_of running = still_running
  exit_of stopping = exits (code 0)
  exit_of aborted = exits minus_one

  -- The loop, where the server was initialized.
  unfoldable pub main_run : List Turn → Code × Initialized L → Exit × List Output
  unfolding exit_of
  main_run turns (minus_one, s) = (exits minus_one, [])
  main_run turns (code _, s) = let done = run L s.server turns in (exit_of done.2, done.1)

  -- The server from the configuration; without one `main` returns 0.
  unfoldable pub main_configured :
      (ℕ → ℕ) → InitCodes → List Turn → Option (RouterdConfig A) → Option (Exit × List Output)
  unfolding main_run
  main_configured now codes turns none = some (exits (code 0), [])
  main_configured now codes turns (some config) = do
    server ← create_initialized L A now config
    ready ←
        init L A server codes.routing_rc codes.routing_connect codes.forward_rc
          codes.forward_connect codes.epoll_rc codes.ctl_rc
    some (main_run turns ready)

  -- `main`, of the arguments behind the program's name
  unfoldable pub main_program :
      (ℕ → ℕ) → InitCodes → List Turn → List (List ℕ) → Option (Exit × List Output)
  unfolding main_configured
  main_program now codes turns args = parse_args A scan_u8 args >>= main_configured now codes turns

  -- Started with at least three and at most 256 arguments, "-d" in front or not, then a path that
  -- starts with neither flag, a second path, and numbers, the daemon faults, whatever the system's
  -- calls return.
  main_program_faults :
      (now : ℕ → ℕ) (codes : InitCodes) (turns : List Turn) (routing forwarding : List ℕ)
      (blocks : List (List ℕ)) (debug : Bool)
      → NoEnd routing
      → NoEnd forwarding
      → starts_with help_flag (c_string routing) ≡ some false
      → starts_with debug_flag (c_string routing) ≡ some false
      → 2 < length (flagged debug (c_string routing ∷ c_string forwarding ∷ blocks))
      → length (flagged debug (c_string routing ∷ c_string forwarding ∷ blocks)) < 257
      → main_program now codes turns
          (flagged debug (c_string routing ∷ c_string forwarding ∷ blocks))
        ≡ none
  unfolding main_program
  main_program_faults now codes turns routing forwarding blocks debug hr hf no_help no_debug enough
        few =
      let made =
        create_initialized-parse_args L A scan_u8 now routing forwarding blocks debug hr hf no_help
          no_debug enough few in
      rw (made.1, made.2) refl
