-- ===== src/Miptpd/Connection/Progress.antt =====
-- The connection of a sender over the acknowledgements it gets.
use in4230_mip.Prelude.{
  ℕ, ◌+◌, ◌*◌, ◌≤◌, ◌<◌, ◌≡◌, refl, ap, ◌∙◌, Bool, true, false, Option, none, some, List, [], ◌∷◌,
  if◌then◌else◌, leb, u16_mod, ◌>>=◌, arith, Bool-cases, inl, inr, map,
}
use in4230_mip.Miptpd.Window.{SlidingWindow, window_update, largest}
use in4230_mip.Miptpd.Package.{MiptpPackage}
use in4230_mip.Miptpd.SendJob.{SendJob, send_job_receive_package, is_complete}
use in4230_mip.Miptpd.SendJob.Slice.{is_complete_lem}
use in4230_mip.Miptpd.Connection.{
  AppConnection, ConnectionStatus, conn_sender, conn_complete, completed, sender_receive,
  receive_by_status, connection_receive_package,
}

-- the connection after packages from senders, in order
pub receive_each : AppConnection → List (ℕ × MiptpPackage) → Option AppConnection
receive_each connection [] = some connection
receive_each connection (sent ∷ rest) = do
  next ← connection_receive_package connection sent.0 sent.1
  receive_each next.1 rest

abbrev pub number : ℕ × MiptpPackage → ℕ
number sent = sent.1.miptp_header.psn

pub status_of : Option AppConnection → Option ConnectionStatus
status_of none = none
status_of (some connection) = some connection.status

-- A complete connection stays as it is.
receive_each_complete :
    (connection : AppConnection) (packages : List (ℕ × MiptpPackage))
    → connection.status ≡ conn_complete
    → receive_each connection packages ≡ some connection
unfolding receive_each connection_receive_package receive_by_status
receive_each_complete connection [] h = refl
receive_each_complete connection (sent ∷ rest) h =
    ap (λ s. receive_by_status s connection sent.0 sent.1 >>= λ next. receive_each next.1 rest) h
    ∙ receive_each_complete connection rest h

largest-le : (n : ℕ) (ns : List ℕ) → n ≤ largest n ns
unfolding largest
largest-le n [] = omega arith
largest-le n (m ∷ ns) = ground (arith, largest-le m ns, largest-le n ns)

update_base :
    (w : SlidingWindow) (nr : ℕ) (ns : List ℕ)
    → largest (window_update w nr).sequence_base ns ≡ largest w.sequence_base (nr ∷ ns)
unfolding window_update largest
update_base w nr ns = ground arith

-- whether packages of 1492 bytes up to and with a number hold the data
abbrev pub covers : ℕ → ℕ → Bool
covers size nr = leb size (nr * 1492 + 1492)

-- the connection of a sender that has received a package
abbrev after : AppConnection → SendJob → AppConnection
after connection next = completed (is_complete next) (record connection { s_job = some next })

receive_each-sender :
    (connection : AppConnection) (job : SendJob) (sent : ℕ × MiptpPackage)
    (rest : List (ℕ × MiptpPackage))
    → connection.status ≡ conn_sender
    → connection.s_job ≡ some job
    → receive_each connection (sent ∷ rest)
      ≡ receive_each (after connection (send_job_receive_package job sent.1)) rest
unfolding receive_each connection_receive_package receive_by_status sender_receive
receive_each-sender connection job sent rest h j =
    ap (λ s. receive_by_status s connection sent.0 sent.1 >>= λ next. receive_each next.1 rest) h
    ∙ ap (λ o. sender_receive connection sent.1 o >>= λ next. receive_each next.1 rest) j

-- the status that acknowledgements up to a number leave
abbrev pub status_at : ℕ → ℕ → ConnectionStatus
status_at size nr = if covers size nr then conn_complete else conn_sender

covers_more : (size m n : ℕ) → m ≤ n → covers size m ≡ true → covers size n ≡ true
covers_more size m n h c = ground arith

after_complete :
    (connection : AppConnection) (next : SendJob)
    → is_complete next ≡ true
    → after connection next ≡ record connection { s_job = some next; status = conn_complete }
unfolding completed
after_complete connection next h = rw h refl

after_open :
    (connection : AppConnection) (next : SendJob)
    → is_complete next ≡ false
    → after connection next ≡ record connection { s_job = some next }
unfolding completed
after_open connection next h = rw h refl

-- By what the packages behind the first make of a job that is not complete.
sender_step :
    (connection : AppConnection) (job : SendJob) (sent : ℕ × MiptpPackage)
    (rest : List (ℕ × MiptpPackage))
    → connection.status ≡ conn_sender
    → connection.s_job ≡ some job
    → 0 < job.data_size
    → job.data_size < u16_mod
    → (covers job.data_size (window_update job.sliding_window (number sent)).sequence_base ≡ false
        → status_of (
            receive_each
              (record connection { s_job = some (send_job_receive_package job sent.1) })
              rest)
          ≡ some (
              status_at job.data_size (
                largest
                  (window_update job.sliding_window (number sent)).sequence_base
                  (map number rest))))
    → status_of (receive_each connection (sent ∷ rest))
      ≡ some (
          status_at job.data_size
            (largest job.sliding_window.sequence_base (map number (sent ∷ rest))))
unfolding status_of send_job_receive_package
sender_step connection job sent rest h j some_bytes small onward =
    let w = job.sliding_window in
    let next = send_job_receive_package job sent.1 in
    let base = (window_update w (number sent)).sequence_base in
    let size = job.data_size in
    let step = receive_each-sender connection job sent rest h j in
    let grown = update_base w (number sent) (map number rest) in
    let test : is_complete next ≡ covers size base = is_complete_lem next some_bytes small in
    elim (Bool-cases (covers size base)) [
      | inl c ↦
          let done = record connection { s_job = some next; status = conn_complete } in
          let all : covers size (largest w.sequence_base (map number (sent ∷ rest))) ≡ true =
            covers_more size base _ (omega (arith, grown, largest-le base (map number rest))) c in
          ap status_of (
            step
            ∙ (ap (λ k. receive_each k rest) (after_complete connection next (test ∙ c))
                ∙ receive_each_complete done rest refl))
          ∙ rw all refl
      | inr c ↦
          ap status_of
            (step ∙ ap (λ k. receive_each k rest) (after_open connection next (test ∙ c)))
          ∙ (onward c ∙ ap (λ b. some (status_at size b)) grown)
    ]

-- The connection of a sender with data, once it has received at least one package, is complete
-- exactly where the largest number acknowledged, or the base of its window where that is larger, is
-- that of the last package of the data or beyond; else it is still a sender's. Acknowledgements may
-- come in any order, late and repeated.
pub sender_progress :
    (connection : AppConnection) (job : SendJob) (sent : ℕ × MiptpPackage)
    (rest : List (ℕ × MiptpPackage))
    → connection.status ≡ conn_sender
    → connection.s_job ≡ some job
    → 0 < job.data_size
    → job.data_size < u16_mod
    → status_of (receive_each connection (sent ∷ rest))
      ≡ some (
          status_at job.data_size
            (largest job.sliding_window.sequence_base (map number (sent ∷ rest))))
unfolding receive_each status_of largest send_job_receive_package
sender_progress connection job sent [] h j some_bytes small =
    sender_step connection job sent [] h j some_bytes small (λ c. rw c (ap some h))
sender_progress connection job sent (more ∷ rest) h j some_bytes small =
    sender_step connection job sent (more ∷ rest) h j some_bytes small (λ c.
      sender_progress (record connection { s_job = some (send_job_receive_package job sent.1) })
        (send_job_receive_package job sent.1) more rest h refl some_bytes small)
