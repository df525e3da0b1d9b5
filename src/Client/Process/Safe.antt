-- ===== src/Client/Process/Safe.antt =====
-- What is known of a client is safe to show.
use winssh_pageant.Common.{
  ℕ, ◌%◌, ◌≡◌, ◌⊎◌, inl, inr, refl, Bool, true, false, not, ◌&&◌, Option, none, some, List, [], ◌∷◌,
  ◌==◌, ltb, arith, Bytes, codes, Bool-cases,
}
use winssh_pageant.Common.Acts.{pure}
use winssh_pageant.Host.{
  open_thread, open_sessions, open_session, session_names, string_value, number_value, image_name,
  thread_process, pipe_process, Os, Trace, ask, tell,
}
use winssh_pageant.Client.{ConnectionTarget, ClientInfo}
use winssh_pageant.Client.CommandLine.{process_command_line, or_empty}
use winssh_pageant.Client.Target.{is_empty}
use winssh_pageant.Client.Target.Safe.{IsShowable, IsField-or_empty, safe_host-IsHost}
use winssh_pageant.Client.Arguments.Safe.{parse_client_target-IsShowable}
use winssh_pageant.Client.Session.{
  Packages, other_protocol, is_text, known_fields, resolve_putty_session, read_names, find_session,
  open_found, read_session, stored_fields, stored_host, stored_user, stored_port,
}
use winssh_pageant.Client.Process.{
  own_process, process_started, target_of, find_target, known_target, named_client, image_client,
  describe, owned_client, client_from_process, client_from_pipe, client_of_thread,
  client_from_thread, client_from_mapping, is_known, thread_of, no_client,
}

module _ (os : Os) (pk : Packages) where
  abbrev IsFit : ConnectionTarget → Type 0
  IsFit t = IsShowable pk.library pk.parsers t

  stored_host-IsFit :
      (session : ℕ) (target : ConnectionTarget) (t : Trace)
      → IsFit target
      → IsFit (stored_host os pk session target t).0
  unfolding stored_host ask pure
  stored_host-IsFit session target t (u, h, p) = elim (Bool-cases (is_empty target.host)) [
    | inl unknown ↦
        let (a, t1) = ask os (string_value session (codes "HostName")) t in
        rw (unknown, stored_host) (u, safe_host-IsHost pk.library pk.parsers (or_empty a.text), p)
    | inr known ↦ rw (known, stored_host) (u, h, p)
  ]

  stored_user-IsFit :
      (session : ℕ) (target : ConnectionTarget) (t : Trace)
      → IsFit target
      → IsFit (stored_user os pk session target t).0
  unfolding stored_user ask pure
  stored_user-IsFit session target t (u, h, p) = elim (Bool-cases (is_empty target.user)) [
    | inl unknown ↦
        let (a, t1) = ask os (string_value session (codes "UserName")) t in
        rw (unknown, stored_user) (IsField-or_empty pk.library (or_empty a.text), h, p)
    | inr known ↦ rw (known, stored_user) (u, h, p)
  ]

  stored_port-IsFit :
      (session : ℕ) (target : ConnectionTarget) (t : Trace)
      → IsFit target
      → IsFit (stored_port os pk session target t).0
  unfolding stored_port ask pure
  stored_port-IsFit session target t (u, h, p) =
      let (a, t1) = ask os (number_value session (codes "PortNumber")) t in
      elim (Bool-cases (target.port == 0)) [
        | inr known ↦ rw (known, stored_port) (u, h, p)
        | inl unknown ↦
            elim (Bool-cases (not (a.number == 0) && ltb 0 a.size && ltb a.size 65536)) [
              | inl fits ↦ rw (unknown, stored_port, fits) (u, h, ground (arith, fits))
              | inr wild ↦ rw (unknown, stored_port, wild) (u, h, p)
            ]
      ]

  known_fields-IsFit :
      (protocol : Option Bytes) (session : ℕ) (target : ConnectionTarget) (t : Trace)
      → IsFit target
      → IsFit (known_fields os pk protocol session target t).0
  unfolding known_fields stored_fields pure
  known_fields-IsFit protocol session target t fit = elim (Bool-cases (other_protocol protocol)) [
    | inl other ↦ rw (other, known_fields) (inl refl, inl refl, omega arith)
    | inr ssh ↦
        let (a, t1) = stored_host os pk session target t in
        let (b, t2) = stored_user os pk session a t1 in
        let one = stored_host-IsFit session target t fit in
        rw (ssh, known_fields) (stored_port-IsFit session b t2 (stored_user-IsFit session a t1 one))
  ]

  find_session-IsFit :
      (key : ℕ) (names : List Bytes) (target : ConnectionTarget) (t : Trace)
      → IsFit target
      → IsFit (find_session os pk key names target t).0
  unfolding find_session open_found read_session ask tell pure
  find_session-IsFit key [] target t fit = fit
  find_session-IsFit key (name ∷ names) target t fit =
      let (session, t1) = ask os (open_session key name) t in
      let (a, t2) = ask os (string_value session.number (codes "Protocol")) t1 in
      elim (Bool-cases (is_text target.session (pk.path_unescape name))) [
        | inr other ↦ rw (other, find_session) (find_session-IsFit key names target t fit)
        | inl found ↦ elim (Bool-cases (session.number == 0)) [
          | inl failed ↦ rw (found, find_session, failed) fit
          | inr opened ↦
              rw (found, find_session, opened)
                (known_fields-IsFit a.text session.number target t2 fit)
        ]
      ]

  resolve_putty_session-IsFit :
      (target : ConnectionTarget) (t : Trace)
      → IsFit target
      → IsFit (resolve_putty_session os pk target t).0
  unfolding resolve_putty_session read_names ask tell pure
  resolve_putty_session-IsFit target t fit =
      let (key, t1) = ask os open_sessions t in
      let (names, t2) = ask os (session_names key.number) t1 in
      elim (Bool-cases (key.number == 0)) [
        | inl failed ↦ rw (failed, resolve_putty_session) fit
        | inr opened ↦ elim (Bool-cases (names.number == 0)) [
          | inl failed ↦ rw (opened, resolve_putty_session, failed) fit
          | inr listed ↦
              rw (opened, resolve_putty_session, listed)
                (find_session-IsFit key.number names.texts target t2 fit)
        ]
      ]

  target_of-IsFit : (name : Bytes) (line : Option (List Bytes)) → IsFit (target_of os pk name line)
  unfolding target_of
  target_of-IsFit name (some (program ∷ arg ∷ args)) =
      parse_client_target-IsShowable pk.library pk.parsers pk.equal_fold name (arg ∷ args)
  target_of-IsFit name (some (program ∷ [])) = (inl refl, inl refl, omega arith)
  target_of-IsFit name (some []) = (inl refl, inl refl, omega arith)
  target_of-IsFit name none = (inl refl, inl refl, omega arith)

  known_target-IsFit : (name : Bytes) (g : ℕ) (t : Trace) → IsFit (known_target os pk name g t).0
  unfolding known_target find_target pure
  known_target-IsFit name g t =
      let (line, t1) = process_command_line os g t in
      let target = target_of os pk name (pk.decompose line) in
      let fit = target_of-IsFit name (pk.decompose line) in
      elim (Bool-cases (is_known os pk name)) [
        | inr other ↦ rw (other, known_target) (inl refl, inl refl, omega arith)
        | inl known ↦ elim (Bool-cases (is_empty line)) [
          | inl hidden ↦ rw (known, known_target, hidden) (inl refl, inl refl, omega arith)
          | inr told ↦ elim (Bool-cases (is_empty target.session)) [
            | inl plain ↦ rw (known, known_target, told, plain) fit
            | inr named ↦
                rw (known, known_target, told, named) (resolve_putty_session-IsFit target t1 fit)
          ]
        ]
      ]

-- Nothing is known of a client, or its target is empty or well formed in each part that a
-- notification shows, and it is marked as inferred or not.
pub record IsKnown (pk : Packages) (inferred : Bool) (c : ClientInfo) : Type 0 where
  pub target : IsShowable pk.library pk.parsers c.target
  pub mark : (c ≡ no_client) ⊎ (c.inferred ≡ inferred)

module _ (os : Os) (pk : Packages) where
  no_client-IsKnown : (inferred : Bool) → IsKnown pk inferred no_client
  no_client-IsKnown inferred = record {
    target = (inl refl, inl refl, omega arith);
    mark = inl refl;
  }

  image_client-IsKnown :
      (pid g size : ℕ) (path : Option Bytes) (t : Trace)
      → IsKnown pk false (image_client os pk pid g size path t).0
  unfolding image_client named_client pure
  image_client-IsKnown pid g size none t = no_client-IsKnown false
  image_client-IsKnown pid g size (some path) t = elim (Bool-cases (size == 0)) [
    | inl empty ↦ rw (empty, image_client) (no_client-IsKnown false)
    | inr there ↦
        let (started, t1) = process_started os g t in
        rw (there, image_client)
          (record { target = known_target-IsFit os pk (pk.base path) g t1; mark = inr refl })
  ]

  owned_client-IsKnown :
      (pid : ℕ) (r : Option ℕ) (t : Trace) → IsKnown pk false (owned_client os pk pid r t).0
  unfolding owned_client describe ask tell pure
  owned_client-IsKnown pid none t = no_client-IsKnown false
  owned_client-IsKnown pid (some g) t =
      let (a, t1) = ask os (image_name g) t in image_client-IsKnown pid g a.size a.text t1

  client_from_process-IsKnown :
      (pid : ℕ) (t : Trace) → IsKnown pk false (client_from_process os pk pid t).0
  unfolding client_from_process
  client_from_process-IsKnown pid t =
      let (r, t1) = own_process os pid t in owned_client-IsKnown pid r t1

  client_of_thread-IsKnown : (g : ℕ) (t : Trace) → IsKnown pk true (client_of_thread os pk g t).0
  unfolding client_of_thread ask tell pure
  client_of_thread-IsKnown g t =
      let (a, t1) = ask os (thread_process g) t in
      record {
        target = (client_from_process-IsKnown (a.number % 0x100000000) t1).target;
        mark = inr refl;
      }

  client_from_pipe-IsKnown :
      (fd : Bool) (t : Trace) → IsKnown pk false (client_from_pipe os pk fd t).0
  unfolding client_from_pipe ask pure
  client_from_pipe-IsKnown false t = no_client-IsKnown false
  client_from_pipe-IsKnown true t =
      let (a, t1) = ask os pipe_process t in
      elim (Bool-cases (a.number == 0)) [
        | inl failed ↦ rw (failed, client_from_pipe) (no_client-IsKnown false)
        | inr told ↦
            rw (told, client_from_pipe) (client_from_process-IsKnown (a.size % 0x100000000) t1)
      ]

  client_from_thread-IsKnown :
      (tid : Option ℕ) (t : Trace) → IsKnown pk true (client_from_thread os pk tid t).0
  unfolding client_from_thread ask pure
  client_from_thread-IsKnown none t = no_client-IsKnown true
  client_from_thread-IsKnown (some tid) t =
      let (thread, t1) = ask os (open_thread tid) t in
      elim (Bool-cases (tid == 0)) [
        | inl nobody ↦ rw (nobody, client_from_thread) (no_client-IsKnown true)
        | inr named ↦ elim (Bool-cases (thread.number == 0)) [
          | inl failed ↦ rw (named, client_from_thread, failed) (no_client-IsKnown true)
          | inr opened ↦
              rw (named, client_from_thread, opened) (client_of_thread-IsKnown thread.number t1)
        ]
      ]

-- What is known of a client, by its pipe or by the name of its mapping, holds a target that is
-- empty or well formed in each part that a notification shows, whatever the command line and the
-- registry hold. Only a mapping's client is marked as inferred, and each one that is known.
pub client_from-IsKnown :
    (os : Os) (pk : Packages) (fd : Bool) (name : Bytes) (t : Trace)
    → IsKnown pk false (client_from_pipe os pk fd t).0
      × IsKnown pk true (client_from_mapping os pk name t).0
unfolding client_from_mapping
client_from-IsKnown os pk fd name t =
    (client_from_pipe-IsKnown os pk fd t, client_from_thread-IsKnown os pk (thread_of name) t)
