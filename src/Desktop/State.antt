-- ===== src/Desktop/State.antt =====
-- The state of `desktop` in pageant/desktop_windows.go, and the calls it makes of Windows. What
-- Windows answers is a function of the calls made so far, so a theorem over all such functions
-- holds however Windows behaves. An answer of 0 is a failure.
use winssh_pageant.Common.{ℕ, Bool, Option, List, ◌∷◌, Bytes}
use winssh_pageant.Common.Acts.{Act}
use winssh_pageant.Keys.{Key}

-- Windows are known by their handles. Signed coordinates are the 32 bits that Windows reads.
pub data Call : Type 0 where
  register_message : Call
  extract_icons : Bytes → Call
  load_stock_icon : Call
  destroy_icon : ℕ → Call
  add_icon : ℕ → List ℕ → Call
  set_icon_version delete_icon focus_icon : Call
  show_info : List ℕ → List ℕ → Call
  set_timer kill_timer : Call
  post : ℕ → Call
  create_menu : Call
  append_menu : ℕ → ℕ → ℕ → Bytes → Call
  cursor_position : Call
  track_menu : ℕ → ℕ → ℕ → Call
  destroy_menu : ℕ → Call
  init_controls : Call
  register_class : ℕ → ℕ → Call
  unregister_class : Call
  create_window : Bytes → Call
  create_control : Bytes → Bytes → ℕ → ℕ → ℕ → Call
  destroy_window : ℕ → Call
  show_window : ℕ → ℕ → Call
  foreground focus : ℕ → Call
  resize_window : ℕ → ℕ → ℕ → Call
  place_window move_window : ℕ → ℕ → ℕ → ℕ → ℕ → Call
  find_dpi : Call
  get_dpi client_rect : ℕ → Call
  list_styles : ℕ → Call
  insert_column : ℕ → ℕ → ℕ → Bytes → Call
  create_font delete_object : ℕ → Call
  set_font : ℕ → ℕ → Call
  enable : ℕ → Bool → Call
  set_text : ℕ → Bytes → Call
  clear_list : ℕ → Call
  redraw : ℕ → Bool → Call
  insert_item : ℕ → ℕ → Bytes → Call
  set_item : ℕ → ℕ → ℕ → Bytes → Call
  dialog_message : ℕ → Call

-- The calls and their answers, the latest first.
abbrev pub History : Type 0
History = List (Call × ℕ)

-- Windows. The last three fields are what a call writes behind a pointer: the icons of
-- ExtractIconEx, the cursor of GetCursorPos, and the width and height of GetClientRect.
pub record System : Type 0 where
  pub answer : History → Call → ℕ
  pub icons : History → ℕ × ℕ
  pub cursor : History → ℕ × ℕ
  pub client_area : History → ℕ × ℕ
  -- `^uintptr(0)`
  pub all_ones : ℕ

-- `desktopNotice`
pub record Notice : Type 0 where
  pub title : Bytes
  pub body : Bytes

-- `desktopKeyResult`, with whether there is an error.
pub record KeyResult : Type 0 where
  pub keys : List Key
  pub failed : Bool

-- `desktop`; `keys_ready` is a channel with room for one result. `loads` counts the goroutines of
-- `refreshKeys` that are at work, and `lost` the icons that went with an Explorer, which the program
-- does not keep.
pub record Desktop : Type 0 where
  pub hwnd : ℕ
  pub closed : Bool
  pub notices : List Notice
  pub keys_ready : Option KeyResult
  pub loads : ℕ
  pub icon : ℕ
  pub large_icon : ℕ
  pub owned_icon : ℕ
  pub owned_large : ℕ
  pub tray_added : Bool
  pub lost : ℕ
  pub tray_version4 : Bool
  pub taskbar_ready : ℕ
  pub notes_enabled : Bool
  pub key_window : ℕ
  pub key_list : ℕ
  pub key_status : ℕ
  pub refresh_button : ℕ
  pub close_button : ℕ
  pub font : ℕ
  pub dpi : ℕ
  pub loading_keys : Bool
  pub key_class : Bool

pub record Screen : Type 0 where
  pub desktop : Desktop
  pub history : History

abbrev pub Desk : Type 0 → Type 0
Desk A = Act Screen A

unfoldable pub desk : Desk Desktop
desk s = (s.desktop, s)

unfoldable pub update : (Desktop → Desktop) → Desk (Unit {0})
update f s = (tt, record s { desktop = f s.desktop })

unfoldable pub ask : System → Call → Desk ℕ
ask sys c s = let r = sys.answer s.history c in (r, record s { history = (c, r) ∷ s.history })

-- A call whose answer is not looked at.
unfoldable pub tell : System → Call → Desk (Unit {0})
tell sys c s = (tt, record s { history = (c, sys.answer s.history c) ∷ s.history })
