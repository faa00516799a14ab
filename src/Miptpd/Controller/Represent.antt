-- ===== src/Miptpd/Controller/Represent.antt =====
-- The connections of the controller of miptpd and the set of their sockets: what taking one out and
-- putting one in does to the set, and what AppConnection_create makes.
use in4230_mip.Prelude.{
  ℕ, zero, suc, ◌%◌, subst, ◌≡◌, refl, sym, ap, ◌∙◌, Bool, true, false, Option, none, some, List,
  [], ◌∷◌, ◌++◌, if◌then◌else◌, ◌==◌, ◌>>=◌, remove_at, All, All-append, arith, Bool-cases, inl,
  inr,
}
use in4230_mip.Miptpd.SendJob.{SendJob, send_job_create}
use in4230_mip.Miptpd.Connection.{
  AppConnection, ConnectionStatus, conn_sender, conn_receiver, conn_not_ready, conn_complete,
  conn_finished, connection_create,
}
use in4230_mip.Miptpd.Controller.{find_socket, found}
use in4230_mip.Miptpd.Controller.Registry.{
  sockets, open_in, IsSound, SoundAs, found-find_socket, open_in-append, Distinct-append,
  open_in-without, Distinct-without, sockets-remove_at,
}
use in4230_mip.Miptpd.Controller.Runs.{Represents}

All-remove_at : (i : ℕ) (xs : List AppConnection) → All IsSound xs → All IsSound (remove_at i xs)
All-remove_at i [] h = tt
All-remove_at zero (x ∷ xs) h = h.1
All-remove_at (suc i) (x ∷ xs) h = (h.0, All-remove_at i xs h.1)

sockets-append :
    (xs : List AppConnection) (k : AppConnection)
    → sockets (xs ++ k ∷ []) ≡ sockets xs ++ k.socket ∷ []
sockets-append [] k = refl
sockets-append (x ∷ xs) k = ap (λ ss. x.socket ∷ ss) (sockets-append xs k)

module _ (xs : List AppConnection) (is_open : ℕ → Bool) (r : Represents xs is_open) where
  pub as_set :
      (other : ℕ → Bool) → ((socket : ℕ) → is_open socket ≡ other socket) → Represents xs other
  as_set other e = record {
    same = λ socket. r.same socket ∙ e socket;
    distinct = r.distinct;
    sound = r.sound;
  }

  pub Represents-append :
      (k : AppConnection)
      → is_open k.socket ≡ false
      → IsSound k
      → Represents (xs ++ k ∷ []) (λ socket. if k.socket == socket then true else is_open socket)
  Represents-append k fresh sound = record {
    same = λ socket.
        rw (sockets-append xs k, open_in-append socket k.socket (sockets xs), r.same socket)
          (ground arith);
    distinct =
        rw (sockets-append xs k)
          (Distinct-append k.socket (sockets xs) (r.same k.socket ∙ fresh) r.distinct);
    sound = All-append IsSound xs (k ∷ []) r.sound (sound, tt);
  }

  pub Represents-remove_at :
      (socket i : ℕ)
      → find_socket socket xs ≡ some i
      → Represents (remove_at i xs) (λ t. if t == socket then false else is_open t)
  Represents-remove_at socket i h = record {
    same = λ t.
        rw (sockets-remove_at socket i xs h, open_in-without socket t (sockets xs) r.distinct)
          (ap (λ b. if t == socket then false else b) (r.same t));
    distinct =
        rw (sockets-remove_at socket i xs h) (Distinct-without socket (sockets xs) r.distinct);
    sound = All-remove_at i xs r.sound;
  }

  pub is_found : (socket i : ℕ) → find_socket socket xs ≡ some i → is_open socket ≡ true
  unfolding found
  is_found socket i h =
      let answer = sym (ap found h) ∙ found-find_socket socket xs in
      elim (Bool-cases (open_in socket (sockets xs))) [
        | inl e ↦ sym (r.same socket) ∙ e
        | inr e ↦ absurd (ground (arith, answer, e))
      ]

  pub is_absent : (socket : ℕ) → find_socket socket xs ≡ none → is_open socket ≡ false
  unfolding found
  is_absent socket h =
      let answer = sym (ap found h) ∙ found-find_socket socket xs in
      elim (Bool-cases (open_in socket (sockets xs))) [
        | inl e ↦ absurd (ground (arith, answer, e))
        | inr e ↦ sym (r.same socket) ∙ e
      ]

-- what is created has the socket and is sound
abbrev pub MadeFor : ℕ → AppConnection → Type 0
MadeFor socket k = (k.socket ≡ socket) × IsSound k

made_equal :
    (socket : ℕ) (c k : AppConnection) → MadeFor socket c → some c ≡ some k → MadeFor socket k
made_equal socket c k h e = let same : c ≡ k = cc in subst (MadeFor socket) same h

made_sender :
    (socket : ℕ) (o : Option SendJob) (c k : AppConnection)
    → c.socket ≡ socket
    → c.status ≡ conn_sender
    → (o >>= λ job. some (record c { s_job = some job })) ≡ some k
    → MadeFor socket k
unfolding IsSound SoundAs
made_sender socket none c k s e h = absurd cc
made_sender socket (some job) c k s e h =
    made_equal socket (record c { s_job = some job }) k (s, rw e (job, refl)) h

abbrev pub idle : ConnectionStatus → ℕ → ℕ → ℕ → AppConnection
idle status socket port destination = record {
  socket = socket;
  port = port;
  connected_mip = destination;
  status = status;
  r_job = none;
  s_job = none;
}

pub connection_create_made :
    (status : ConnectionStatus) (socket port destination : ℕ) (bytes : List ℕ)
    (data_size timeout now : ℕ) (k : AppConnection)
    → connection_create status socket port destination bytes data_size timeout now ≡ some k
    → MadeFor socket k
unfolding connection_create IsSound SoundAs
connection_create_made conn_sender socket port destination bytes data_size timeout now k h =
    made_sender socket (send_job_create (port % 16_384) destination bytes data_size timeout now)
      (idle conn_sender socket (port % 16_384) destination) k refl refl h
connection_create_made conn_receiver socket port destination bytes data_size timeout now k h =
    absurd cc
connection_create_made conn_not_ready socket port destination bytes data_size timeout now k h =
    made_equal socket (idle conn_not_ready socket (port % 16_384) destination) k (refl, tt) h
connection_create_made conn_complete socket port destination bytes data_size timeout now k h =
    made_equal socket (idle conn_complete socket (port % 16_384) destination) k (refl, tt) h
connection_create_made conn_finished socket port destination bytes data_size timeout now k h =
    made_equal socket (idle conn_finished socket (port % 16_384) destination) k (refl, tt) h
