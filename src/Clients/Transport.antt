-- ===== src/Clients/Transport.antt =====
-- The sample program that sends over the transport daemon, tpclient/src/main/tpclient.c: the package
-- it writes. The text it sends is an argument, and so is the block on the stack, which is not set.
-- `none` is a fault of memory, or NULL.
use in4230_mip.Prelude.{
  ℕ, ◌+◌, ◌≤◌, ◌%◌, ◌/◌, none, ◌≡◌, refl, ap, Option, some, List, [], ◌∷◌, ◌++◌, length, take, drop,
  u16_mod, length-append, length-take, length-drop, ltb, false, read_at, read_at_all,
  read_at_within, take_more, ◌>>=◌, received, remove_at, arith,
}
use in4230_mip.Commons.LinkedList.{LinkedList}
use in4230_mip.Commons.ClientPackage
use in4230_mip.Commons.ClientPackage.{ClientPackage, IsPackage, header}
use in4230_mip.Miptpd.Connection.{AppConnection, conn_sender, connection_create}
use in4230_mip.Miptpd.SendJob.{SendJob, send_job_create}
use in4230_mip.Miptpd.Window.{window_create}
use in4230_mip.Miptpd.Setup.{MiptpServer}
use in4230_mip.Miptpd.Controller.{find_socket}
use in4230_mip.Miptpd.Server.{Event, running, is_fd, handle_event}
use in4230_mip.Miptpd.Server.Applications.{Arrives, sender_registers}

-- the package of `main`: port 10, destination 110, of a sender
abbrev pub text_package : List ℕ → ClientPackage
text_package text = record {
  port = 10;
  destination = 110;
  client_type = 1;
  data_size = length text;
  content = text;
}

-- What `main` writes: as many bytes as `ClientPackage_serialize` returns.
unfoldable pub tp_request : List ℕ → List ℕ → Option (List ℕ)
tp_request s_package text = do
  p ← ClientPackage.create 10 110 1 text (length text)
  written ← ClientPackage.serialize s_package p
  read_at written.1 0 written.0

IsPackage-text : (text : List ℕ) → length text ≤ 1984 → IsPackage (text_package text)
IsPackage-text text short = record {
  port = omega arith;
  destination = omega arith;
  client_type = omega arith;
  data_size = omega arith;
  content = refl;
}

text_created :
    (text : List ℕ)
    → length text ≤ 1984
    → ClientPackage.create 10 110 1 text (length text) ≡ some (text_package text)
unfolding ClientPackage.create
text_created text short =
    let small : ltb 65_535 (length text) ≡ false = ground arith in
    rw (small, read_at_all text (length text) refl) refl

pub tp_request_lem :
    (s_package text : List ℕ)
    → length s_package ≡ 2000
    → length text ≤ 1984
    → tp_request s_package text
      ≡ some (header (text_package text) ++ (text ++ take 7 (drop (9 + length text) s_package)))
unfolding tp_request
tp_request_lem s_package text block short =
    let p = text_package text in
    let left = drop (9 + length text) s_package in
    let exact : (16 + length text) % u16_mod ≡ 9 + (length text + 7) = omega arith in
    let size : 9 + (length text + 7) ≤ length (header p ++ (text ++ left)) =
      omega (arith, length-append text left, length-drop (9 + length text) s_package) in
    rw
      (
        text_created text short,
        ClientPackage.serialize_lem p (IsPackage-text text short) s_package (omega arith),
        exact,
        read_at_within (header p ++ (text ++ left)) 0 (9 + (length text + 7)) (omega (arith, size)),
        take_more (header p) (text ++ left) (length text + 7),
        take_more text left 7,
      )
      refl

-- the nine bytes of the header: port 10, destination 110, type 1, and the size
abbrev pub text_header : ℕ → List ℕ
text_header size = 10 ∷ 0 ∷ 110 ∷ 1 ∷ 0 ∷ 0 ∷ 0 ∷ size % 256 ∷ size / 256 % 256 ∷ []

-- the job and the connection that the daemon keeps for the text
abbrev job_for : (text : List ℕ) (timeout now : ℕ) → SendJob
job_for text timeout now = record {
  port = 10;
  destination = 110;
  timeout = timeout;
  last_ack = now;
  content = text;
  data_size = length text;
  sliding_window = window_create 0 10;
}

abbrev connection_for : (fd : ℕ) → SendJob → AppConnection
connection_for fd job = record {
  socket = fd;
  port = 10;
  connected_mip = 110;
  status = conn_sender;
  r_job = none;
  s_job = some job;
}

connection_create-connection_for :
    (fd timeout now : ℕ) (text : List ℕ)
    → connection_create conn_sender fd 10 110 text (length text) timeout now
      ≡ some (connection_for fd (job_for text timeout now))
unfolding connection_create send_job_create
connection_create-connection_for fd timeout now text = rw (read_at_all text (length text) refl) refl

-- The sample client writes, for a text of at most 1984 bytes, a header, the text, and seven bytes
-- that it never set, those that its block of 2000 bytes on the stack had there. Where the daemon reads
-- that whole from a descriptor that is one of its applications' and neither the link daemon's nor the
-- listening one, the loop goes on, and the application's connection is replaced, at the end of the
-- list, by that of a sender on the same descriptor, with port 10, peer 110, no receive job, and a send
-- job to port 10 of 110 that holds the text and not the seven bytes.
pub sender_registers-tp_request :
    (L : LinkedList AppConnection) (server : MiptpServer L) (event : Event) (place : ℕ)
    (s_package text : List ℕ)
    → length s_package ≡ 2000
    → length text ≤ 1984
    → event.bytes
      ≡ received (text_header (length text) ++ (text ++ take 7 (drop (9 + length text) s_package)))
    → find_socket event.fd (L.items server.app_controller.connections) ≡ some place
    → is_fd server.mipd_fd event.fd ≡ false
    → is_fd server.app_connections_socket.socket_fd event.fd ≡ false
    → (tp_request s_package text
        ≡ some (text_header (length text) ++ (text ++ take 7 (drop (9 + length text) s_package))))
      × (next : MiptpServer L) × (connection : AppConnection) × (job : SendJob) × handle_event L
            server event
          ≡ some (running, next)
      × L.items next.app_controller.connections
        ≡ remove_at place (L.items server.app_controller.connections) ++ connection ∷ []
      × connection.status ≡ conn_sender
      × connection.socket ≡ event.fd
      × connection.port ≡ 10
      × connection.connected_mip ≡ 110
      × connection.r_job ≡ none
      × connection.s_job ≡ some job
      × job.port ≡ 10
      × job.destination ≡ 110
      × job.content ≡ text
      × job.data_size ≡ length text
sender_registers-tp_request L server event place s_package text block short came found_at not_mipd
      not_listening =
    let p = text_package text in
    let behind = take 7 (drop (9 + length text) s_package) in
    let arrives : Arrives L server event p place = record {
      is_package = IsPackage-text text short;
      rest = behind;
      bytes = came;
      fits =
          omega
            (arith, length-append text behind, length-take 7 (drop (9 + length text) s_package));
      found_at = found_at;
      not_mipd = not_mipd;
      not_listening = not_listening;
    } in
    let done = sender_registers L server event p place arrives refl (omega arith) (omega arith) in
    let timeout = server.app_controller.timeout in
    let made = connection_create-connection_for event.fd timeout event.now text in
    let same : done.1 ≡ connection_for event.fd (job_for text timeout event.now) = cc in
    (
      tp_request_lem s_package text block short,
      done.0,
      done.1,
      job_for text timeout event.now,
      done.2,
      done.3,
      done.5,
      done.6,
      ap (λ c. c.port) same,
      ap (λ c. c.connected_mip) same,
      ap (λ c. c.r_job) same,
      ap (λ c. c.s_job) same,
      refl,
      refl,
      refl,
      refl,
    )
