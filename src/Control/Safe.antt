-- ===== src/Control/Safe.antt =====
-- Control leaves no handle open, and asks no other installation.
use winssh_pageant.Common.{
  ℕ, ◌+◌, ◌≡◌, refl, Bool, true, false, Option, none, some, [], ◌∷◌, ◌≢◌, ◌⊎◌, inl, arith, Bytes,
  ◌==◌, if◌then◌else◌,
}
use winssh_pageant.Common.Acts.{Keeps, pure}
use winssh_pageant.Host.{
  window_process, open_process, token_user, copy_sid, own_user, image_name, own_path, open_token,
  Os, Trace, ask, tell, opened, closed, opens,
}
use winssh_pageant.Host.Handles.{IsOpen, handed}
use winssh_pageant.Host.Security.{get_user_sid, copy_valid_sid}
use winssh_pageant.Control.{
  Match, match_token, match_path, path_seen, own_path_seen, own_user_seen, user_seen, settle,
  match_process, matching_process, wait_for, stop,
}

-- What a call was answered last: the process of a window, the handle of a process, the token of a
-- handle, the user of a token, the file of a handle; then this process's own user, which is copied,
-- and its own file.
abbrev pub process_of : ℕ → Trace → ℕ
process_of hwnd [] = 0
process_of hwnd ((window_process w, a) ∷ t) = if w == hwnd then a.number else process_of hwnd t
process_of hwnd (other ∷ t) = process_of hwnd t

abbrev pub handle_of : ℕ → Trace → ℕ
handle_of pid [] = 0
handle_of pid ((open_process waits p, a) ∷ t) = if p == pid then a.number else handle_of pid t
handle_of pid (other ∷ t) = handle_of pid t

abbrev pub token_of : ℕ → Trace → ℕ
token_of g [] = 0
token_of g ((open_token process, a) ∷ t) = if process == g then a.number else token_of g t
token_of g (other ∷ t) = token_of g t

abbrev pub user_of : ℕ → Trace → Option Bytes
user_of token [] = none
user_of token ((token_user k, a) ∷ t) = if k == token then a.text else user_of token t
user_of token (other ∷ t) = user_of token t

abbrev pub image_of : ℕ → Trace → Option Bytes
image_of g [] = none
image_of g ((image_name process, a) ∷ t) = if process == g then a.text else image_of g t
image_of g (other ∷ t) = image_of g t

abbrev pub own_sid : Trace → Option Bytes
own_sid [] = none
own_sid ((own_user, a) ∷ t) = a.text
own_sid (other ∷ t) = own_sid t

abbrev pub copied_sid : Trace → Option Bytes
copied_sid [] = none
copied_sid ((copy_sid sid, a) ∷ t) = some sid
copied_sid (other ∷ t) = copied_sid t

abbrev pub own_user_text : Trace → Option Bytes
own_user_text [] = none
own_user_text ((copy_sid sid, a) ∷ t) = a.text
own_user_text (other ∷ t) = own_user_text t

abbrev pub own_path_text : Trace → Option Bytes
own_path_text [] = none
own_path_text ((own_path, a) ∷ t) = a.text
own_path_text (other ∷ t) = own_path_text t

abbrev pub agree : (Bytes → Bytes → Bool) → Option Bytes → Option Bytes → Bool
agree same (some a) (some b) = same a b
agree same other others = false

-- The user of the token is the own user, whose identifier was asked for and copied.
abbrev pub IsOwnUser : Os → ℕ → Trace → Type 0
IsOwnUser os token t =
    (agree os.same_sid (user_of token t) (own_user_text t) ≡ true) × (copied_sid t ≡ own_sid t)

-- So is the user of the process with the handle `g`, and its file is the own file.
abbrev pub IsOurs : Os → ℕ → ℕ → Trace → Type 0
IsOurs os g token t =
    IsOwnUser os token t × (agree os.same_path (own_path_text t) (image_of g t) ≡ true)

-- The user and the program of the process of the window are those of this one.
abbrev pub IsMatched : Os → ℕ → Trace → Type 0
IsMatched os hwnd t = let g = handle_of (process_of hwnd t) t in IsOurs os g (token_of g t) t

-- What a match of the handle `g` may return.
abbrev pub IsVerdict : Os → ℕ → ℕ → Match → Trace → Type 0
IsVerdict os g token r t = (r ≡ none) ⊎ ((r ≡ some 0) ⊎ ((r ≡ some g) × IsOurs os g token t))

module _ (os : Os) (h m : ℕ) where
  user_seen-IsOpen : (n g : ℕ) (user : Option Bytes) → Keeps (IsOpen h m n) (user_seen os g user)
  unfolding user_seen own_user_seen get_user_sid copy_valid_sid match_path path_seen own_path_seen
      ask pure opened closed
  user_seen-IsOpen n g user = record { after = λ t b. ground arith }

  match_token-IsOpen : (n g : ℕ) → Keeps (IsOpen h m n) (match_token os g)
  unfolding match_token ask tell pure opened closed
  match_token-IsOpen n g = record {
    after = λ t b.
        let (token, t1) = ask os (open_token g) t in
        let held = n + opens h token in
        let b1 : IsOpen h m held t1 = ground arith in
        let (a, t2) = ask os (token_user token.number) t1 in
        let b2 : IsOpen h m held t2 = ground (arith, b1) in
        ground (arith, b1, b2, (user_seen-IsOpen held g a.text).after t2 b2);
  }

module _ (os : Os) where
  own_path_seen-IsVerdict :
      (g token : ℕ) (path : Bytes) (exe : Option Bytes) (t : Trace)
      → IsOwnUser os token t
      → image_of g t ≡ some path
      → own_path_text t ≡ exe
      → IsVerdict os g token (own_path_seen os g path exe t).0 (own_path_seen os g path exe t).1
  unfolding own_path_seen pure
  own_path_seen-IsVerdict g token path none t same image own = inl refl
  own_path_seen-IsVerdict g token path (some exe) t same image own = ground arith

  path_seen-IsVerdict :
      (g token : ℕ) (image : Option Bytes) (t : Trace)
      → IsOwnUser os token t
      → image_of g t ≡ image
      → IsVerdict os g token (path_seen os g image t).0 (path_seen os g image t).1
  unfolding path_seen ask pure
  path_seen-IsVerdict g token none t same seen = inl refl
  path_seen-IsVerdict g token (some path) t same seen =
      let (own, t1) = ask os own_path t in
      own_path_seen-IsVerdict g token path own.text t1 same seen refl

  match_path-IsVerdict :
      (g token : ℕ) (t : Trace)
      → IsOwnUser os token t
      → IsVerdict os g token (match_path os g t).0 (match_path os g t).1
  unfolding match_path ask
  match_path-IsVerdict g token t same =
      let (image, t1) = ask os (image_name g) t in
      let seen : image_of g t1 ≡ image.text = ground arith in
      path_seen-IsVerdict g token image.text t1 same seen

  get_user_sid-text :
      (token : ℕ) (t : Trace)
      → (((get_user_sid os t).0 ≡ none)
          ⊎ (((get_user_sid os t).0 ≡ own_user_text (get_user_sid os t).1)
              × (copied_sid (get_user_sid os t).1 ≡ own_sid (get_user_sid os t).1)))
        × (user_of token (get_user_sid os t).1 ≡ user_of token t)
  unfolding get_user_sid copy_valid_sid ask pure
  get_user_sid-text token t = ground arith

  user_seen-IsVerdict :
      (g token : ℕ) (user : Option Bytes) (t : Trace)
      → user_of token t ≡ user
      → IsVerdict os g token (user_seen os g user t).0 (user_seen os g user t).1
  unfolding user_seen own_user_seen pure
  user_seen-IsVerdict g token none t said = inl refl
  user_seen-IsVerdict g token (some user) t said =
      let (ours, t1) = get_user_sid os t in
      ground (arith, get_user_sid-text token t, match_path-IsVerdict g token t1)

  user_seen-token :
      (g : ℕ) (user : Option Bytes) (t : Trace)
      → token_of g (user_seen os g user t).1 ≡ token_of g t
  unfolding user_seen own_user_seen get_user_sid copy_valid_sid match_path path_seen own_path_seen
      ask pure
  user_seen-token g user t = ground arith

  pub match_token-IsVerdict :
      (g : ℕ) (t : Trace)
      → IsVerdict os g
          (token_of g (match_token os g t).1)
          (match_token os g t).0
          (match_token os g t).1
  unfolding match_token ask tell pure
  match_token-IsVerdict g t =
      let (token, t1) = ask os (open_token g) t in
      let (a, t2) = ask os (token_user token.number) t1 in
      let said : user_of token.number t2 ≡ a.text = ground arith in
      let its : token_of g t2 ≡ token.number = ground arith in
      ground
        (arith, its, user_seen-token g a.text t2, user_seen-IsVerdict g token.number a.text t2 said)

module _ (os : Os) (h m : ℕ) where
  settle-IsOpen :
      (n g token : ℕ) (r : Match) (t : Trace)
      → g ≢ 0
      → IsVerdict os g token r t
      → IsOpen h m (n + handed h (some g)) t
      → IsOpen h m (n + handed h (settle os g r t).0) (settle os g r t).1
  unfolding settle tell pure opened closed
  settle-IsOpen n g token none t there verdict b = ground arith
  settle-IsOpen n g token (some kept) t there verdict b = ground arith

  match_process-IsOpen :
      (n pid : ℕ) (t : Trace)
      → IsOpen h m n t
      → IsOpen h m (n + handed h (match_process os pid t).0) (match_process os pid t).1
  unfolding match_process ask pure opened closed
  match_process-IsOpen n pid t b =
      let (process, t1) = ask os (open_process true pid) t in
      let held = n + handed h (some process.number) in
      let b1 : IsOpen h m held t1 = ground arith in
      let (r, t2) = match_token os process.number t1 in
      let verdict = match_token-IsVerdict os process.number t1 in
      let b2 = (match_token-IsOpen os h m held process.number).after t1 b1 in
      ground (arith, b1, settle-IsOpen n process.number (token_of process.number t2) r t2)

  pub matching_process-IsOpen :
      (n hwnd : ℕ) (t : Trace)
      → IsOpen h m n t
      → IsOpen h m (n + handed h (matching_process os hwnd t).0) (matching_process os hwnd t).1
  unfolding matching_process ask pure opened closed
  matching_process-IsOpen n hwnd t b =
      let (a, t1) = ask os (window_process hwnd) t in
      let b1 : IsOpen h m n t1 = ground arith in
      ground (arith, b1, match_process-IsOpen n a.number t1 b1)

  pub stop-IsOpen :
      (n hwnd g : ℕ) (t : Trace)
      → g ≢ 0
      → IsOpen h m (n + handed h (some g)) t
      → IsOpen h m n (stop os hwnd g t).1
  unfolding stop wait_for ask tell pure opened closed
  stop-IsOpen n hwnd g t there b = ground arith
