-- ===== src/Desktop/Sound/Tray.antt =====
-- The tray keeps the invariant.
use winssh_pageant.Common.{ℕ, Option, [], ◌∷◌, length-append, arith, Bytes}
use winssh_pageant.Common.Acts.{Keeps, pure}
use winssh_pageant.Library.{Library}
use winssh_pageant.Text.{clean_ui_text}
use winssh_pageant.Desktop.State.{System, Notice, desk, update, ask, tell}
use winssh_pageant.Desktop.Tray.{add_tray_icon, attach_icon, notify, take_notice}
use winssh_pageant.Desktop.Sound.{IsSound}

module _ {limit : Option ℕ} {font : ℕ} (sys : System) (lib : Library) where
  pub add_tray_icon-IsSound : Keeps (IsSound limit font) (add_tray_icon sys lib)
  unfolding add_tray_icon attach_icon desk update ask tell pure
  add_tray_icon-IsSound = record { after = λ s h. ground arith }

  pub notify-IsSound : (title body : Bytes) → Keeps (IsSound limit font) (notify sys lib title body)
  unfolding notify desk update tell pure
  notify-IsSound title body = record {
    after = λ s h.
        let n : Notice = record {
          title = clean_ui_text lib title;
          body = clean_ui_text lib body;
        } in
        ground (arith, length-append s.desktop.notices (n ∷ []));
  }

  pub take_notice-IsSound : Keeps (IsSound limit font) (take_notice sys lib)
  unfolding take_notice desk update tell pure
  take_notice-IsSound = record { after = λ s h. ground arith }
