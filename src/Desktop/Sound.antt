-- ===== src/Desktop/Sound.antt =====
-- The invariant of the desktop: what it holds and what it has given back.
pub mod Tray
pub mod Keys
pub mod Closing
pub mod Steps
use winssh_pageant.Common.{
  ℕ, ◌+◌, ◌≤◌, ◌≡◌, ◌≢◌, ◌⊎◌, refl, Bool, true, false, not, ◌&&◌, Option, none, some, List, [], ◌∷◌,
  ◌++◌, ◌==◌, if◌then◌else◌, length, arith,
}
use winssh_pageant.Common.Acts.{Act, Keeps}
use winssh_pageant.Desktop.State.{
  Call, create_font, delete_icon, delete_object, destroy_icon, add_icon, show_info, History, System,
  KeyResult, Desktop, Screen, Desk, desk, update, ask, tell,
}
use winssh_pageant.Desktop.Tray.{capacity}

abbrev pub one_if : Bool → ℕ
one_if true = 1
one_if false = 0

abbrev pub waiting : Option KeyResult → ℕ
waiting none = 0
waiting (some result) = 1

-- How often the font `w` was created, and an object `w` was deleted.
abbrev pub is_font : ℕ → ℕ → ℕ
is_font w font = if not (w == 0) && font == w then 1 else 0

abbrev pub created : ℕ → History → ℕ
created w [] = 0
created w ((create_font size, font) ∷ earlier) = is_font w font + created w earlier
created w (other ∷ earlier) = created w earlier

abbrev pub deleted : ℕ → History → ℕ
deleted w [] = 0
deleted w ((delete_object font, answer) ∷ earlier) = is_font w font + deleted w earlier
deleted w (other ∷ earlier) = deleted w earlier

-- How often an icon came into the tray, and was taken out of it.
abbrev pub added : History → ℕ
added [] = 0
added ((add_icon icon tip, answer) ∷ earlier) = one_if (not (answer == 0)) + added earlier
added (other ∷ earlier) = added earlier

abbrev pub removed : History → ℕ
removed [] = 0
removed ((delete_icon, answer) ∷ earlier) = 1 + removed earlier
removed (other ∷ earlier) = removed earlier

-- The icons that were given back, the latest first.
abbrev pub destroyed : History → List ℕ
destroyed [] = []
destroyed ((destroy_icon icon, answer) ∷ earlier) = icon ∷ destroyed earlier
destroyed (other ∷ earlier) = destroyed earlier

-- How often the user was shown an icon or a notification.
abbrev pub shown : History → ℕ
shown [] = 0
shown ((add_icon icon tip, answer) ∷ earlier) = 1 + shown earlier
shown ((show_info title body, answer) ∷ earlier) = 1 + shown earlier
shown (other ∷ earlier) = shown earlier

abbrev pub listed : ℕ → List ℕ → List ℕ
listed icon icons = if icon == 0 then icons else icon ∷ icons

-- The icons of the program's own, each once.
abbrev pub owned : Desktop → List ℕ
owned d =
    listed (if d.owned_large == d.owned_icon then 0 else d.owned_large) (listed d.owned_icon [])

abbrev pub given_back : Desktop → List ℕ
given_back d = if d.closed then owned d else []

abbrev pub IsBare : Desktop → Type 0
IsBare d =
    (d.key_list ≡ 0)
    × (d.key_status ≡ 0)
    × (d.refresh_button ≡ 0)
    × (d.close_button ≡ 0)
    × (d.font ≡ 0)

-- With `some n`, the desktop is closed, and the user has been shown n icons and notifications.
abbrev pub IsSilent : Option ℕ → Screen → Type 0
IsSilent limit s = (limit ≡ none) ⊎ ((s.desktop.closed ≡ true) × (some (shown s.history) ≡ limit))

pub record IsSound (limit : Option ℕ) (w : ℕ) (s : Screen) : Type 0 where
  pub quiet : (s.desktop.closed ≡ false) ⊎ (s.desktop.tray_added ≡ false)
  pub queue : length s.desktop.notices ≤ capacity
  pub one_load : s.desktop.loads + waiting s.desktop.keys_ready ≤ one_if s.desktop.loading_keys
  pub bare : (s.desktop.key_window ≢ 0) ⊎ IsBare s.desktop
  pub fonts : created w s.history ≡ deleted w s.history + is_font w s.desktop.font
  pub tray : added s.history ≡ removed s.history + s.desktop.lost + one_if s.desktop.tray_added
  pub silent : IsSilent limit s
  pub icons : destroyed s.history ≡ given_back s.desktop
