-- ===== src/Client/Process/Handles.antt =====
-- No handle stays open for what is known of a client.
use winssh_pageant.Common.{
  ℕ, ◌+◌, ◌%◌, ◌≡◌, ◌≢◌, Bool, true, false, Option, none, some, List, [], ◌∷◌, arith, Bytes, codes,
}
use winssh_pageant.Common.Acts.{Keeps, pure}
use winssh_pageant.Host.{
  string_value, open_process, open_thread, open_sessions, open_session, session_names, image_name,
  thread_process, pipe_process, Os, Trace, ask, tell, opened, closed,
}
use winssh_pageant.Host.Handles.{IsOpen, handed}
use winssh_pageant.Host.Security.{get_user_sid, copy_valid_sid}
use winssh_pageant.Client.{ConnectionTarget}
use winssh_pageant.Client.CommandLine.{process_command_line, sized_query, query}
use winssh_pageant.Client.Session.{
  Packages, known_fields, resolve_putty_session, read_names, find_session, open_found, read_session,
  stored_fields, stored_host, stored_user, stored_port,
}
use winssh_pageant.Client.Process.{
  own_process, check_token, check_owner, process_started, target_of, find_target, known_target,
  named_client, image_client, describe, owned_client, client_from_process, client_from_pipe,
  client_of_thread, client_from_thread, client_from_mapping, thread_of,
}

module _ (os : Os) (h m n : ℕ) where
  check_token-IsOpen :
      (g : ℕ) (t : Trace)
      → g ≢ 0
      → IsOpen h m (n + handed h (some g)) t
      → IsOpen h m (n + handed h (check_token os g t).0) (check_token os g t).1
  unfolding check_token check_owner get_user_sid copy_valid_sid ask tell pure opened closed
  check_token-IsOpen g t there b = ground arith

  own_process-IsOpen :
      (pid : ℕ) (t : Trace)
      → IsOpen h m n t
      → IsOpen h m (n + handed h (own_process os pid t).0) (own_process os pid t).1
  unfolding own_process ask pure opened closed
  own_process-IsOpen pid t b =
      let (process, t1) = ask os (open_process false pid) t in
      let b1 : IsOpen h m (n + handed h (some process.number)) t1 = ground arith in
      ground (arith, b1, check_token-IsOpen process.number t1)

  process_command_line-IsOpen : (g : ℕ) → Keeps (IsOpen h m n) (process_command_line os g)
  unfolding process_command_line sized_query query ask pure opened closed
  process_command_line-IsOpen g = record { after = λ t b. ground arith }

  process_started-IsOpen : (g : ℕ) → Keeps (IsOpen h m n) (process_started os g)
  unfolding process_started ask pure opened closed
  process_started-IsOpen g = record { after = λ t b. ground arith }

module _ (os : Os) (pk : Packages) (h m : ℕ) where
  stored_fields-IsOpen :
      (n session : ℕ) (target : ConnectionTarget)
      → Keeps (IsOpen h m n) (stored_fields os pk session target)
  unfolding stored_fields stored_host stored_user stored_port ask pure opened closed
  stored_fields-IsOpen n session target = record { after = λ t b. ground arith }

  known_fields-IsOpen :
      (n : ℕ) (protocol : Option Bytes) (session : ℕ) (target : ConnectionTarget)
      → Keeps (IsOpen h m n) (known_fields os pk protocol session target)
  unfolding known_fields pure
  known_fields-IsOpen n protocol session target = record {
    after = λ t b. ground (arith, (stored_fields-IsOpen n session target).after t b);
  }

  read_session-IsOpen :
      (n g : ℕ) (target : ConnectionTarget) (t : Trace)
      → g ≢ 0
      → IsOpen h m (n + handed h (some g)) t
      → IsOpen h m n (read_session os pk g target t).1
  unfolding read_session ask tell pure opened closed
  read_session-IsOpen n g target t there b =
      let (a, t1) = ask os (string_value g (codes "Protocol")) t in
      let held = n + handed h (some g) in
      let b1 : IsOpen h m held t1 = ground arith in
      ground (arith, (known_fields-IsOpen held a.text g target).after t1 b1)

  find_session-IsOpen :
      (n key : ℕ) (names : List Bytes) (target : ConnectionTarget)
      → Keeps (IsOpen h m n) (find_session os pk key names target)
  unfolding find_session open_found ask pure opened closed
  find_session-IsOpen n key [] target = record { after = λ t b. b }
  find_session-IsOpen n key (name ∷ names) target = record {
    after = λ t b.
        let (session, t1) = ask os (open_session key name) t in
        let b1 : IsOpen h m (n + handed h (some session.number)) t1 = ground arith in
        ground (
          arith,
          b1,
          read_session-IsOpen n session.number target t1,
          (find_session-IsOpen n key names target).after t b,
        );
  }

  resolve_putty_session-IsOpen :
      (n : ℕ) (target : ConnectionTarget)
      → Keeps (IsOpen h m n) (resolve_putty_session os pk target)
  unfolding resolve_putty_session read_names ask tell pure opened closed
  resolve_putty_session-IsOpen n target = record {
    after = λ t b.
        let (key, t1) = ask os open_sessions t in
        let held = n + handed h (some key.number) in
        let b1 : IsOpen h m held t1 = ground arith in
        let (names, t2) = ask os (session_names key.number) t1 in
        let b2 : IsOpen h m held t2 = ground (arith, b1) in
        ground
          (arith, b1, b2, (find_session-IsOpen held key.number names.texts target).after t2 b2);
  }

  find_target-IsOpen :
      (n : ℕ) (name : Bytes) (g : ℕ) → Keeps (IsOpen h m n) (find_target os pk name g)
  unfolding find_target pure
  find_target-IsOpen n name g = record {
    after = λ t b.
        let (line, t1) = process_command_line os g t in
        let b1 = (process_command_line-IsOpen os h m n g).after t b in
        let target = target_of os pk name (pk.decompose line) in
        ground (arith, b1, (resolve_putty_session-IsOpen n target).after t1 b1);
  }

  named_client-IsOpen :
      (n pid g : ℕ) (name : Bytes) → Keeps (IsOpen h m n) (named_client os pk pid g name)
  unfolding named_client known_target pure
  named_client-IsOpen n pid g name = record {
    after = λ t b.
        let t1 = (process_started os g t).1 in
        let b1 = (process_started-IsOpen os h m n g).after t b in
        ground (arith, b1, (find_target-IsOpen n name g).after t1 b1);
  }

  image_client-IsOpen :
      (n pid g size : ℕ) (path : Option Bytes)
      → Keeps (IsOpen h m n) (image_client os pk pid g size path)
  unfolding image_client pure
  image_client-IsOpen n pid g size none = record { after = λ t b. b }
  image_client-IsOpen n pid g size (some path) = record {
    after = λ t b. ground (arith, (named_client-IsOpen n pid g (pk.base path)).after t b);
  }

  describe-IsOpen : (n pid g : ℕ) → Keeps (IsOpen h m n) (describe os pk pid g)
  unfolding describe ask opened closed
  describe-IsOpen n pid g = record {
    after = λ t b.
        let (a, t1) = ask os (image_name g) t in
        let b1 : IsOpen h m n t1 = ground arith in
        (image_client-IsOpen n pid g a.size a.text).after t1 b1;
  }

  owned_client-IsOpen :
      (n pid : ℕ) (r : Option ℕ) (t : Trace)
      → r ≢ some 0
      → IsOpen h m (n + handed h r) t
      → IsOpen h m n (owned_client os pk pid r t).1
  unfolding owned_client tell pure opened closed
  owned_client-IsOpen n pid none t there b = ground arith
  owned_client-IsOpen n pid (some g) t there b =
      ground (arith, (describe-IsOpen (n + handed h (some g)) pid g).after t b)

  own_process-there : (pid : ℕ) (t : Trace) → (own_process os pid t).0 ≢ some 0
  unfolding own_process check_token check_owner ask tell pure
  own_process-there pid t = ground arith

  client_from_process-IsOpen : (n pid : ℕ) → Keeps (IsOpen h m n) (client_from_process os pk pid)
  unfolding client_from_process
  client_from_process-IsOpen n pid = record {
    after = λ t b.
        let (r, t1) = own_process os pid t in
        owned_client-IsOpen n pid r t1 (own_process-there pid t)
          (own_process-IsOpen os h m n pid t b);
  }

  client_from_pipe-IsOpen : (n : ℕ) (fd : Bool) → Keeps (IsOpen h m n) (client_from_pipe os pk fd)
  unfolding client_from_pipe ask pure opened closed
  client_from_pipe-IsOpen n false = record { after = λ t b. b }
  client_from_pipe-IsOpen n true = record {
    after = λ t b.
        let (a, t1) = ask os pipe_process t in
        let b1 : IsOpen h m n t1 = ground arith in
        ground (arith, b1, (client_from_process-IsOpen n (a.size % 0x100000000)).after t1 b1);
  }

  client_from_thread-IsOpen :
      (n : ℕ) (tid : Option ℕ) → Keeps (IsOpen h m n) (client_from_thread os pk tid)
  unfolding client_from_thread client_of_thread ask tell pure opened closed
  client_from_thread-IsOpen n none = record { after = λ t b. b }
  client_from_thread-IsOpen n (some tid) = record {
    after = λ t b.
        let (thread, t1) = ask os (open_thread tid) t in
        let held = n + handed h (some thread.number) in
        let b1 : IsOpen h m held t1 = ground arith in
        let (a, t2) = ask os (thread_process thread.number) t1 in
        let b2 : IsOpen h m held t2 = ground (arith, b1) in
        ground
          (arith, b1, b2, (client_from_process-IsOpen held (a.number % 0x100000000)).after t2 b2);
  }

-- To know a client, by its pipe or by the name of its mapping, leaves no handle open and closes
-- none twice: of processes, tokens, threads and keys of the registry, each is closed as often as
-- it is opened, on every path.
pub client_from-handles :
    (os : Os) (pk : Packages) (h : ℕ) (fd : Bool) (name : Bytes) (t : Trace)
    → (opened h (client_from_pipe os pk fd t).1 + closed h t
        ≡ closed h (client_from_pipe os pk fd t).1 + opened h t)
      × (opened h (client_from_mapping os pk name t).1 + closed h t
          ≡ closed h (client_from_mapping os pk name t).1 + opened h t)
unfolding client_from_mapping
client_from-handles os pk h fd name t =
    let start : IsOpen h (closed h t) (opened h t) t = ground arith in
    let pipe = client_from_pipe-IsOpen os pk h (closed h t) (opened h t) fd in
    let thread = client_from_thread-IsOpen os pk h (closed h t) (opened h t) (thread_of name) in
    ((pipe.after t start).balance, (thread.after t start).balance)
