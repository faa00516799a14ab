-- ===== src/Miptpd/Controller/Runs.antt =====
-- The controller of miptpd over any sequence of calls of its handlers, against a set of sockets.
use in4230_mip.Prelude.{
  ℕ, ◌≡◌, Bool, true, false, Option, some, List, [], ◌∷◌, if◌then◌else◌, ◌==◌, ◌>>=◌, Code,
  minus_one, code, All,
}
use in4230_mip.Commons.LinkedList.{LinkedList}
use in4230_mip.Commons.ClientPackage
use in4230_mip.Commons.ClientPackage.{ClientPackage}
use in4230_mip.Commons.MipdMessage.{MipdMessage}
use in4230_mip.Miptpd.Package
use in4230_mip.Miptpd.Package.{MiptpPackage}
use in4230_mip.Miptpd.Connection.{AppConnection}
use in4230_mip.Miptpd.Controller.{
  AppController, handle_app_package, handle_mipd_package, handle_connection, disconnect,
}
use in4230_mip.Miptpd.Controller.Registry.{sockets, open_in, Distinct, IsSound}

-- A call of a handler, with what the system gives it: the codes of `accept` and `epoll_ctl`, the
-- bytes read from a socket and the clock, a message of the link daemon.
pub data Call : Type 0 where
  connect : (accepted epoll_rc : Code) (now : ℕ) → Call
  hang_up : (socket : ℕ) → Call
  app_package : (socket : ℕ) (bytes : List ℕ) (now : ℕ) → Call
  mipd_package : MipdMessage → Call

module _ (L : LinkedList AppConnection) where
  unfoldable pub call : AppController L → Call → Option (AppController L)
  call controller (connect accepted epoll_rc now) =
      some (handle_connection L controller accepted epoll_rc now).1
  call controller (hang_up socket) = some (disconnect L controller socket).1
  call controller (app_package socket bytes now) = do
    done ← handle_app_package L controller socket bytes now
    some done.1
  call controller (mipd_package message) = do
    done ← handle_mipd_package L controller message
    some done.1

  unfoldable pub calls : AppController L → List Call → Option (AppController L)
  calls controller [] = some controller
  calls controller (c ∷ rest) = call controller c >>= λ next. calls next rest

-- The set of sockets that a call leaves open: those accepted and watched join, and those that hang
-- up leave.
unfoldable pub opened : (ℕ → Bool) → Call → ℕ → Bool
opened is_open (connect (code s) (code _) now) socket = if s == socket then true else is_open socket
opened is_open (connect _ _ now) socket = is_open socket
opened is_open (hang_up s) socket = if socket == s then false else is_open socket
opened is_open (app_package s bytes now) socket = is_open socket
opened is_open (mipd_package message) socket = is_open socket

unfoldable pub opened_by : (ℕ → Bool) → List Call → ℕ → Bool
opened_by is_open [] = is_open
opened_by is_open (c ∷ rest) = opened_by (opened is_open c) rest

-- What the callers see to: the system accepts on a descriptor that is not open, and what comes in
-- can be deserialized.
unfoldable pub Admissible : (ℕ → Bool) → Call → Type 0
Admissible is_open (connect (code s) epoll_rc now) = is_open s ≡ false
Admissible is_open (connect minus_one epoll_rc now) = Unit
Admissible is_open (hang_up s) = Unit
Admissible is_open (app_package s bytes now) =
    (p : ClientPackage) × ClientPackage.deserialize bytes ≡ some p
Admissible is_open (mipd_package message) =
    (p : MiptpPackage) × Package.deserialize message.content message.data_size ≡ some p

unfoldable pub AllAdmissible : (ℕ → Bool) → List Call → Type 0
AllAdmissible is_open [] = Unit
AllAdmissible is_open (c ∷ rest) = Admissible is_open c × AllAdmissible (opened is_open c) rest

-- connections whose sockets are the open ones, each once, with a job for each sender
pub record Represents (connections : List AppConnection) (is_open : ℕ → Bool) : Type 0 where
  pub same : (socket : ℕ) → open_in socket (sockets connections) ≡ is_open socket
  pub distinct : Distinct (sockets connections)
  pub sound : All IsSound connections
