-- ===== src/Miptpd/Main.antt =====
-- `main` of the transport daemon, miptpd/src/main/miptpd.c. What the system's calls return is given;
-- `none` is a fault of memory.
use in4230_mip.Prelude.{ℕ, Option, none, some, List, [], ◌>>=◌, Code, minus_one, code}
use in4230_mip.Commons.LinkedList.{LinkedList}
use in4230_mip.Miptpd.Package.{MiptpPackage}
use in4230_mip.Miptpd.Connection.{AppConnection}
use in4230_mip.Miptpd.Setup.{MiptpServer, server_create, init}
use in4230_mip.Miptpd.Config.{MiptpConfig, Opt, parse_arguments}
use in4230_mip.Miptpd.Server.{Turn, Outcome, running, stopping, aborted}
use in4230_mip.Miptpd.Server.Run.{run}

-- The codes of the calls in `MIPTPServer_init`: `socket` and `connect` for the link daemon, `socket`,
-- `bind` and `listen` for the applications, and those of epoll.
pub record InitCodes : Type 0 where
  pub mipd_rc : Code
  pub connect_rc : Code
  pub socket_rc : Code
  pub bind_rc : Code
  pub listen_rc : Code
  pub epoll_rc : Code
  pub ctl_rc : ℕ → Code

-- What the program returns to the system, as far as the turns go: it still runs, or the number.
pub data Exit : Type 0 where
  still_running : Exit
  exit_code : ℕ → Exit

module _ (L : LinkedList AppConnection) (Q : LinkedList MiptpPackage) where
  unfoldable pub exit_of : Outcome → Exit
  exit_of running = still_running
  exit_of stopping = exit_code 0
  exit_of aborted = exit_code 1

  unfoldable pub main_run : List Turn → Code × MiptpServer L → Option (Exit × List (List ℕ))
  unfolding exit_of
  main_run turns (minus_one, server) = some (exit_code 1, [])
  main_run turns (code _, server) = do done ← run L Q server turns; some (exit_of done.0, done.2)

  -- A server that is NULL is followed by `MIPTPServer_init`.
  unfoldable pub main_configured :
      InitCodes → List Turn → Option MiptpConfig → Option (Exit × List (List ℕ))
  unfolding main_run
  main_configured codes turns none = some (exit_code 0, [])
  main_configured codes turns (some config) = do
    server ← server_create L config.mipd_socket config.app_socket config.debug_active config.timeout
    ready ←
        init L server codes.mipd_rc codes.connect_rc codes.socket_rc codes.bind_rc codes.listen_rc
          codes.epoll_rc codes.ctl_rc
    main_run turns ready

  -- `main`, of the options that `getopt` returns and the arguments behind them
  unfoldable pub main_program :
      (List ℕ → Option ℕ)
      → List Opt
      → List (List ℕ)
      → InitCodes
      → List Turn
      → Option (Exit × List (List ℕ))
  unfolding main_configured
  main_program scan opts rest codes turns =
      parse_arguments scan opts rest >>= main_configured codes turns
