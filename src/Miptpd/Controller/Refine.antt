-- ===== src/Miptpd/Controller/Refine.antt =====
-- The controller of miptpd keeps a set of sockets: miptpd/src/lib/miptp_app_controller.c.
use in4230_mip.Prelude.{
  ℕ, ◌≡◌, refl, ap, ◌∙◌, Bool, true, false, Option, none, some, List, [], ◌∷◌, ◌++◌, if◌then◌else◌,
  ◌==◌, remove_at, Code, minus_one, code, All, arith, Bool-cases, Option-cases, inl, inr,
}
use in4230_mip.Commons.LinkedList.{LinkedList}
use in4230_mip.Commons.ClientPackage.{ClientPackage}
use in4230_mip.Miptpd.Connection.{
  AppConnection, connection_create, connection_create_not_ready, connection_type,
}
use in4230_mip.Miptpd.Controller.{
  AppController, find_socket, controller_create, complete_connection, app_package_found,
  app_package_read, handle_app_package, register, handle_connection, is_a_connection, removed,
  disconnect,
}
use in4230_mip.Miptpd.Controller.Registry.{
  sockets, open_in, Distinct, IsSound, SoundAs, found-find_socket,
}
use in4230_mip.Miptpd.Controller.Delivery.{handle_mipd_package_lem, sockets-deliver, All-deliver}
use in4230_mip.Miptpd.Controller.Represent.{
  as_set, Represents-append, Represents-remove_at, is_found, is_absent, MadeFor,
  connection_create_made,
}
use in4230_mip.Miptpd.Controller.Runs.{
  Call, connect, hang_up, app_package, mipd_package, call, calls, opened, opened_by, Admissible,
  AllAdmissible, Represents,
}

module _ (L : LinkedList AppConnection) where
  abbrev Stands : AppController L → (ℕ → Bool) → Type 0
  Stands controller is_open = Represents (L.items controller.connections) is_open

  connect-Stands :
      (controller : AppController L) (is_open : ℕ → Bool) (accepted epoll_rc : Code) (now : ℕ)
      → Stands controller is_open
      → Admissible is_open (connect accepted epoll_rc now)
      → Stands
          (handle_connection L controller accepted epoll_rc now).1
          (opened is_open (connect accepted epoll_rc now))
  unfolding handle_connection register connection_create_not_ready connection_create opened
      Admissible IsSound SoundAs
  connect-Stands controller is_open minus_one epoll_rc now r h = r
  connect-Stands controller is_open (code s) minus_one now r h = r
  connect-Stands controller is_open (code s) (code _) now r h =
      rw L.items-push (Represents-append _ is_open r _ h tt)

  hang_up-Stands :
      (controller : AppController L) (is_open : ℕ → Bool) (socket : ℕ)
      → Stands controller is_open
      → Stands (disconnect L controller socket).1 (opened is_open (hang_up socket))
  unfolding disconnect removed opened
  hang_up-Stands controller is_open socket r =
      let xs = L.items controller.connections in
      elim (Option-cases (find_socket socket xs)) [
        | inl e ↦
            rw (e, removed)
              (as_set xs is_open r _ (λ t. ground (arith, is_absent xs is_open r socket e)))
        | inr (i, e) ↦
            rw (e, removed, L.items-remove) (Represents-remove_at xs is_open r socket i e)
      ]

  -- the connection at a place is taken out, and one of the same socket put in
  complete-Stands :
      (controller : AppController L) (is_open : ℕ → Bool) (socket i : ℕ) (o : Option AppConnection)
      → Stands controller is_open
      → find_socket socket (L.items controller.connections) ≡ some i
      → ((k : AppConnection) → o ≡ some k → MadeFor socket k)
      → Stands (complete_connection L controller i o).1 is_open
  unfolding complete_connection
  complete-Stands controller is_open socket i none r e made = r
  complete-Stands controller is_open socket i (some k) r e made =
      let xs = L.items controller.connections in
      let fit = made k refl in
      let left : ℕ → Bool = λ t. if t == socket then false else is_open t in
      let fresh : left k.socket ≡ false = ground (arith, fit.0) in
      let replaced =
        Represents-append (remove_at i xs) left (Represents-remove_at xs is_open r socket i e) k
          fresh fit.1 in
      let back : (t : ℕ) → (if k.socket == t then true else left t) ≡ is_open t =
        λ t. ground (arith, fit.0, is_found xs is_open r socket i e) in
      rw (L.items-push, L.items-remove) (as_set (remove_at i xs ++ k ∷ []) _ replaced is_open back)

  found-Stands :
      (controller : AppController L) (is_open : ℕ → Bool) (socket : ℕ) (p : ClientPackage) (now : ℕ)
      → Stands controller is_open
      → Stands
          (app_package_found L controller socket p now
            (find_socket socket (L.items controller.connections))).1
          is_open
  unfolding app_package_found
  found-Stands controller is_open socket p now r =
      elim (Option-cases (find_socket socket (L.items controller.connections))) [
        | inl e ↦ rw (e, app_package_found) r
        | inr (i, e) ↦
            rw (e, app_package_found)
              (complete-Stands controller is_open socket i _ r e (
                connection_create_made (connection_type p.client_type) socket p.port p.destination
                  p.content p.data_size controller.timeout now))
      ]

  app_package-Stands :
      (controller : AppController L) (is_open : ℕ → Bool) (socket : ℕ) (p : ClientPackage) (now : ℕ)
      → Stands controller is_open
      → Stands (app_package_read L controller socket p now).1 is_open
  unfolding app_package_read
  app_package-Stands controller is_open socket p now r = elim (Bool-cases (p.port == 0)) [
    | inl e ↦ rw e r
    | inr e ↦ elim (Bool-cases (p.destination == 0)) [
      | inl f ↦ rw (e, f) r
      | inr f ↦ rw (e, f) (found-Stands controller is_open socket p now r)
    ]
  ]

  call-Stands :
      (controller : AppController L) (is_open : ℕ → Bool) (c : Call)
      → Stands controller is_open
      → Admissible is_open c
      → (next : AppController L) × call L controller c ≡ some next × Stands next (opened is_open c)
  unfolding call Admissible opened handle_app_package
  call-Stands controller is_open (connect accepted epoll_rc now) r h = (
    (handle_connection L controller accepted epoll_rc now).1,
    refl,
    connect-Stands controller is_open accepted epoll_rc now r h,
  )
  call-Stands controller is_open (hang_up socket) r h =
      ((disconnect L controller socket).1, refl, hang_up-Stands controller is_open socket r)
  call-Stands controller is_open (app_package socket bytes now) r (p, readable) = (
    (app_package_read L controller socket p now).1,
    rw readable refl,
    app_package-Stands controller is_open socket p now r,
  )
  call-Stands controller is_open (mipd_package message) r (p, readable) =
      let done = handle_mipd_package_lem L controller message p readable r.sound in
      let xs = L.items controller.connections in
      (
        done.0,
        rw done.1 refl,
        rw done.2 (record {
          same = λ socket. rw (sockets-deliver p xs) (r.same socket);
          distinct = rw (sockets-deliver p xs) r.distinct;
          sound = All-deliver p xs r.sound;
        }),
      )

  pub calls-Stands :
      (controller : AppController L) (is_open : ℕ → Bool) (cs : List Call)
      → Stands controller is_open
      → AllAdmissible is_open cs
      → (last : AppController L) × calls L controller cs ≡ some last
        × Stands last (opened_by is_open cs)
  unfolding calls AllAdmissible opened_by
  calls-Stands controller is_open [] r h = (controller, refl, r)
  calls-Stands controller is_open (c ∷ rest) r h =
      let first = call-Stands controller is_open c r h.0 in
      let onward = calls-Stands first.0 (opened is_open c) rest first.2 h.1 in
      (onward.0, rw first.1 onward.1, onward.2)

  -- The controller keeps the set of its applications' sockets: after any calls from its creation on,
  -- where the system accepts no socket that is still open and what comes in can be deserialized, no
  -- call faults; `MIPTPAppController_is_a_connection` returns 1 for exactly the sockets that were
  -- accepted and watched and have not hung up since, whatever packages came in between, and 0 for
  -- the others; no socket is held twice, every sender has its job, and there is no receiver.
  pub is_a_connection-calls :
      (mipd_socket : Code) (max_connections : ℕ) (cs : List Call)
      → AllAdmissible (λ socket. false) cs
      → (last : AppController L) × calls L (controller_create L mipd_socket max_connections) cs
          ≡ some last
        × ((socket : ℕ)
            → is_a_connection L last (code socket)
              ≡ (if opened_by (λ s. false) cs socket then code 1 else code 0))
        × Distinct (sockets (L.items last.connections))
        × All IsSound (L.items last.connections)
  unfolding controller_create is_a_connection open_in
  is_a_connection-calls mipd_socket max_connections cs h =
      let run =
        calls-Stands (controller_create L mipd_socket max_connections) (λ socket. false) cs
          (rw L.items-create (record { same = λ socket. refl; distinct = tt; sound = tt })) h in
      let shown : Represents (L.items run.0.connections) (opened_by (λ s. false) cs) = run.2 in
      (
        run.0,
        run.1,
        λ socket.
            found-find_socket socket (L.items run.0.connections)
            ∙ ap (λ b. if b then code 1 else code 0) (shown.same socket),
        shown.distinct,
        shown.sound,
      )
