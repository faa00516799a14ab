-- ===== src/Clients/Ping.antt =====
-- The sample programs that ping: ping-client/src/ping_client.c and ping-server/src/ping_server.c. What
-- `sscanf` reads and what `recv` gives are arguments; the time-out and the time are left to the
-- system. `none` is a fault of memory. A block on the stack from which only bytes are read that have
-- been written starts as zeros here.
use in4230_mip.Prelude.{
  ℕ, ◌+◌, ◌-◌, ◌≤◌, ◌<◌, ◌≡◌, refl, ap, ◌∙◌, Option, none, some, List, [], ◌∷◌, ◌++◌, length,
  replicate, u16_mod, drop, length-replicate, write_at-append, read_at_all, read_at-append, arith,
  read_at, write_at, ◌>>=◌, minus_one, code, Recv, failed, closed, received,
}
use mathlib.Core.List.{append_assoc}
use in4230_mip.Commons.Strings.{strlen}
use in4230_mip.Commons.MipdMessage
use in4230_mip.Commons.MipdMessage.{
  MipdMessage, IsMessage, header, max_mipmessage_size, max_mipmessage_data_size,
}

-- The part of `main` of the client that makes the message, of the address that `sscanf` reads, and of
-- the second argument: `strcpy` copies it with its end. A message that is not created is NULL, which
-- is followed. The number that `MIPDMessage_serialize` returns is a uint16_t, which is never -1.
unfoldable pub ping_request : ℕ → List ℕ → Option (List ℕ)
ping_request destination text = do
  n ← strlen text
  string ← read_at text 0 (n + 1)
  buffer ← write_at (replicate max_mipmessage_data_size 0) 0 string
  made ← MipdMessage.create destination n buffer
  message ← made
  written ← MipdMessage.serialize (replicate max_mipmessage_size 0) message
  read_at written.1 0 (elim written.0 [ minus_one ↦ u16_mod - 1 | code size ↦ size ])

-- What the client makes of the answer.
pub data PingResult : Type 0 where
  timed_out : PingResult
  answered : (mip_address : ℕ) (content : List ℕ) → PingResult

unfoldable pub read_answer : List ℕ → Option PingResult
read_answer block = do
  made ← MipdMessage.deserialize block
  message ← made
  some (answered message.mip_address message.content)

-- The end of `main` of the client, by what `recv` gives: a failure is the time-out, where `errno` says
-- so. The block for the answer is not set before: where the daemon has closed, it is read as it was.
unfoldable pub ping_response : List ℕ → Recv (List ℕ) → Option PingResult
unfolding read_answer
ping_response s_response failed = some timed_out
ping_response s_response closed = read_answer s_response
ping_response s_response (received bytes) = write_at s_response 0 bytes >>= read_answer

-- "PONG"
abbrev pub payload : List ℕ
payload = 80 ∷ 79 ∷ 78 ∷ 71 ∷ []

-- The answer of the server to a message in its block: the inner `none` is the end of the program.
unfoldable pub pong : List ℕ → Option (Option (List ℕ))
pong m_buffer = do
  made ← MipdMessage.deserialize m_buffer
  message ← made
  answer ← MipdMessage.create message.mip_address 4 payload
  response ← answer
  written ← MipdMessage.serialize (replicate max_mipmessage_size 0) response
  elim written.0 [
    | minus_one ↦ some none
    | code size ↦ (do bytes ← read_at written.1 0 size; some (some bytes))
  ]

-- A pass of the loop of the server, whose blocks are zeroed before each.
unfoldable pub ping_server_turn : Recv (List ℕ) → Option (Option (List ℕ))
unfolding pong
ping_server_turn failed = some none
ping_server_turn closed = some none
ping_server_turn (received bytes) = write_at (replicate max_mipmessage_size 0) 0 bytes >>= pong

-- a message as it lies in the block for it
placed :
    (m : MipdMessage) (rest block : List ℕ)
    → IsMessage m
    → length (header m ++ (m.content ++ rest)) ≤ length block
    → (filled : List ℕ) × write_at block 0 (header m ++ (m.content ++ rest)) ≡ some filled
      × MipdMessage.deserialize filled ≡ some (some m)
placed m rest block v fits =
    let sent = header m ++ (m.content ++ rest) in
    let left = drop (length sent) block in
    (
      sent ++ left,
      write_at-append [] sent block 0 refl fits,
      ap MipdMessage.deserialize (
            append_assoc (header m) (m.content ++ rest) left
            ∙ ap (λ r. header m ++ r) (append_assoc m.content rest left))
          ∙ MipdMessage.deserialize_lem m v (rest ++ left),
    )

abbrev pong_message : ℕ → MipdMessage
pong_message address = record { mip_address = address; data_size = 4; content = payload }

IsMessage-pong_message : (address : ℕ) → address < 256 → IsMessage (pong_message address)
IsMessage-pong_message address small = record {
  mip_address = small;
  data_size = omega arith;
  content = refl;
}

created : (address : ℕ) → MipdMessage.create address 4 payload ≡ some (some (pong_message address))
unfolding MipdMessage.create
created address = rw (read_at_all payload 4 refl) refl

pong_lem :
    (m : MipdMessage) (block : List ℕ)
    → IsMessage m
    → MipdMessage.deserialize block ≡ some (some m)
    → pong block ≡ some (some (header (pong_message m.mip_address) ++ payload))
unfolding pong
pong_lem m block v held =
    let zeros = replicate {A = ℕ} 1500 0 in
    let answer = pong_message m.mip_address in
    let room : 3 + length payload ≤ length zeros = omega (arith, length-replicate {A = ℕ} 1500 0) in
    rw
      (
        held,
        created m.mip_address,
        MipdMessage.serialize_lem answer (IsMessage-pong_message m.mip_address v.mip_address) zeros
            room,
        read_at-append [] (header answer ++ payload) (drop 7 zeros) 0 7 refl refl,
      )
      refl

-- A message of fields in range that comes to the ping server, in at most 1500 bytes, is answered by
-- one to its address, which a client takes in any block of 1500 bytes as "PONG" from that address.
pub ping_response-ping_server_turn :
    (m : MipdMessage) (rest s_response : List ℕ)
    → IsMessage m
    → length (header m ++ (m.content ++ rest)) ≤ 1500
    → length s_response ≡ 1500
    → (sent : List ℕ) × ping_server_turn (received (header m ++ (m.content ++ rest)))
        ≡ some (some sent)
      × ping_response s_response (received sent) ≡ some (answered m.mip_address payload)
unfolding ping_server_turn ping_response read_answer
ping_response-ping_server_turn m rest s_response v fits room =
    let zeros = replicate {A = ℕ} 1500 0 in
    let came = placed m rest zeros v (omega (arith, fits, length-replicate {A = ℕ} 1500 0)) in
    let answer = pong_message m.mip_address in
    let sent = header answer ++ payload in
    let back =
      placed answer [] s_response (IsMessage-pong_message m.mip_address v.mip_address)
        (omega (arith, room)) in
    (sent, rw came.1 (pong_lem m came.0 v came.2), rw (back.1, back.2) refl)
