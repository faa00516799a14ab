-- ===== src/Miptpd/Controller/Registry.antt =====
-- The controller of miptpd as a registry of sockets: MIPTPAppController_handle_connection,
-- disconnect, handle_app_package, handle_mipd_package and is_a_connection of
-- miptpd/src/lib/miptp_app_controller.c over any sequence of calls.
use in4230_mip.Prelude.{
  ℕ, zero, suc, ◌≡◌, refl, ap, ◌∙◌, Bool, true, false, Option, none, some, List, [], ◌∷◌, ◌++◌,
  if◌then◌else◌, ◌==◌, remove_at, map, ◌>>=◌, code, arith, Bool-cases, inl, inr,
}
use in4230_mip.Miptpd.Connection.{
  AppConnection, ConnectionStatus, conn_sender, conn_receiver, conn_not_ready, conn_complete,
  conn_finished,
}
use in4230_mip.Miptpd.SendJob.{SendJob}
use in4230_mip.Miptpd.Controller.{find_socket, found}

abbrev pub sockets : List AppConnection → List ℕ
sockets connections = map (λ (c : AppConnection). c.socket) connections

-- whether a socket is among those of a list
unfoldable pub open_in : ℕ → List ℕ → Bool
open_in socket [] = false
open_in socket (s ∷ rest) = if s == socket then true else open_in socket rest

-- no socket stands twice
abbrev pub Distinct : List ℕ → Type 0
Distinct [] = Unit
Distinct (s ∷ rest) = (open_in s rest ≡ false) × Distinct rest

unfoldable pub SoundAs : ConnectionStatus → AppConnection → Type 0
SoundAs conn_sender connection = (job : SendJob) × (connection.s_job ≡ some job)
SoundAs conn_receiver connection = ⊥
SoundAs conn_not_ready connection = Unit
SoundAs conn_complete connection = Unit
SoundAs conn_finished connection = Unit

-- a sender has its job, and there is no receiver
unfoldable pub IsSound : AppConnection → Type 0
unfolding SoundAs
IsSound connection = SoundAs connection.status connection

-- the list without the first place of a socket
unfoldable pub without : ℕ → List ℕ → List ℕ
without socket [] = []
without socket (s ∷ rest) = if s == socket then rest else s ∷ without socket rest

found_here :
    (b : Bool) (o : Option ℕ)
    → found (if b then some 0 else (o >>= λ i. some (suc i))) ≡ (if b then code 1 else found o)
unfolding found
found_here true o = refl
found_here false none = refl
found_here false (some i) = refl

if_in :
    (b c : Bool)
    → (if b then code 1 else (if c then code 1 else code 0))
      ≡ (if (if b then true else c) then code 1 else code 0)
if_in true c = refl
if_in false c = refl

pub found-find_socket :
    (socket : ℕ) (connections : List AppConnection)
    → found (find_socket socket connections)
      ≡ (if open_in socket (sockets connections) then code 1 else code 0)
unfolding find_socket open_in found
found-find_socket socket [] = refl
found-find_socket socket (c ∷ rest) =
    found_here (c.socket == socket) (find_socket socket rest)
    ∙ (ap (λ x. if c.socket == socket then code 1 else x) (found-find_socket socket rest)
        ∙ if_in (c.socket == socket) (open_in socket (sockets rest)))

pub open_in-append :
    (socket s : ℕ) (xs : List ℕ)
    → open_in socket (xs ++ s ∷ []) ≡ (if open_in socket xs then true else s == socket)
unfolding open_in
open_in-append socket s [] = ground arith
open_in-append socket s (x ∷ xs) = ground (arith, open_in-append socket s xs)

pub Distinct-append :
    (s : ℕ) (xs : List ℕ) → open_in s xs ≡ false → Distinct xs → Distinct (xs ++ s ∷ [])
unfolding open_in
Distinct-append s [] h d = (refl, tt)
Distinct-append s (x ∷ xs) h d = (
  open_in-append x s xs ∙ rw d.0 (ground (arith, h)),
  Distinct-append s xs (ground (arith, h)) d.1,
)

pub open_in-without :
    (socket t : ℕ) (xs : List ℕ)
    → Distinct xs
    → open_in t (without socket xs) ≡ (if t == socket then false else open_in t xs)
unfolding open_in without
open_in-without socket t [] d = ground arith
open_in-without socket t (x ∷ xs) d = ground (arith, open_in-without socket t xs d.1, d.0)

pub Distinct-without : (socket : ℕ) (xs : List ℕ) → Distinct xs → Distinct (without socket xs)
unfolding without
Distinct-without socket [] d = tt
Distinct-without socket (x ∷ xs) d = elim (Bool-cases (x == socket)) [
  | inl e ↦ rw e d.1
  | inr e ↦
      rw e (open_in-without socket x xs d.1 ∙ ground (arith, d.0), Distinct-without socket xs d.1)
]

remove_here :
    (b : Bool) (place : Option ℕ) (i : ℕ) (c : AppConnection) (rest : List AppConnection)
    (others : List ℕ)
    → (if b then some 0 else (place >>= λ j. some (suc j))) ≡ some i
    → ((j : ℕ) → place ≡ some j → sockets (remove_at j rest) ≡ others)
    → sockets (remove_at i (c ∷ rest)) ≡ (if b then sockets rest else c.socket ∷ others)
remove_here true place zero c rest others h onward = refl
remove_here true place (suc i) c rest others h onward = absurd cc
remove_here false none i c rest others h onward = absurd cc
remove_here false (some j) zero c rest others h onward = absurd cc
remove_here false (some j) (suc i) c rest others h onward =
    let same : some j ≡ some i = cc in ap (λ ss. c.socket ∷ ss) (onward i same)

pub sockets-remove_at :
    (socket i : ℕ) (connections : List AppConnection)
    → find_socket socket connections ≡ some i
    → sockets (remove_at i connections) ≡ without socket (sockets connections)
unfolding find_socket without
sockets-remove_at socket i [] h = refl
sockets-remove_at socket i (c ∷ rest) h =
    remove_here (c.socket == socket) (find_socket socket rest) i c rest _ h
      (λ j g. sockets-remove_at socket j rest g)

-- A socket that is not found is not there to be left out.
pub without_absent : (socket : ℕ) (xs : List ℕ) → open_in socket xs ≡ false → without socket xs ≡ xs
unfolding open_in without
without_absent socket [] h = refl
without_absent socket (x ∷ xs) h = elim (Bool-cases (x == socket)) [
  | inl e ↦ absurd (ground (arith, h))
  | inr e ↦ rw e (ap (λ ss. x ∷ ss) (without_absent socket xs (ground (arith, h))))
]
