-- ===== src/Desktop/Sound/Closing.antt =====
-- `close` gives back what the desktop holds.
use winssh_pageant.Common.{
  ℕ, ◌+◌, ◌≤◌, ◌≡◌, ◌≢◌, ◌⊎◌, true, false, not, Option, [], ◌==◌, length, arith,
}
use winssh_pageant.Common.Acts.{Keeps, pure, when}
use winssh_pageant.Library.{Library}
use winssh_pageant.Desktop.State.{
  kill_timer, unregister_class, System, Desktop, Screen, desk, update, ask, tell,
}
use winssh_pageant.Desktop.Tray.{capacity}
use winssh_pageant.Desktop.Keys.{destroy_key_window, forget_window}
use winssh_pageant.Desktop.Messages.{close, give_back, hide_icon, destroy_icons}
use winssh_pageant.Desktop.Sound.{
  IsSound, IsSilent, IsBare, one_if, waiting, created, deleted, is_font, added, removed, destroyed,
}

-- Closed, without an icon of the tray, and with the icons of the desktop `d` still to give back.
record IsEnding (limit : Option ℕ) (font : ℕ) (d : Desktop) (s : Screen) : Type 0 where
  ended : s.desktop.closed ≡ true
  hidden : s.desktop.tray_added ≡ false
  queue : length s.desktop.notices ≤ capacity
  one_load : s.desktop.loads + waiting s.desktop.keys_ready ≤ one_if s.desktop.loading_keys
  bare : (s.desktop.key_window ≢ 0) ⊎ IsBare s.desktop
  fonts : created font s.history ≡ deleted font s.history + is_font font s.desktop.font
  tray : added s.history ≡ removed s.history + s.desktop.lost
  silent : IsSilent limit s
  kept : destroyed s.history ≡ []
  small_icon : s.desktop.owned_icon ≡ d.owned_icon
  large_icon : s.desktop.owned_large ≡ d.owned_large

abbrev mark : Screen → Screen
mark s = record s { desktop = record s.desktop { closed = true } }

module _ {limit : Option ℕ} {font : ℕ} (sys : System) (lib : Library) where
  hide_icon-IsEnding :
      (s : Screen)
      → IsSound limit font s
      → s.desktop.closed ≡ false
      → IsEnding limit font s.desktop
          (hide_icon sys lib s.desktop (tell sys kill_timer (mark s)).1).1
  unfolding hide_icon desk update tell pure
  hide_icon-IsEnding s h opened = ground arith

  destroy_key_window-IsEnding :
      (d : Desktop)
      → Keeps
          (IsEnding limit font d)
          (when (not (d.key_window == 0)) (destroy_key_window sys d.key_window))
  unfolding destroy_key_window forget_window desk update ask tell pure
  destroy_key_window-IsEnding d = record { after = λ s h. ground arith }

  unregister-IsEnding :
      (d : Desktop) → Keeps (IsEnding limit font d) (when d.key_class (tell sys unregister_class))
  unfolding tell pure
  unregister-IsEnding d = record { after = λ s h. ground arith }

  destroy_icons-IsSound :
      (d : Desktop) (s : Screen)
      → IsEnding limit font d s
      → IsSound limit font (destroy_icons sys lib d s).1
  unfolding destroy_icons tell pure
  destroy_icons-IsSound d s h = ground arith

  destroy_icons-closed :
      (d : Desktop) (s : Screen)
      → IsEnding limit font d s
      → (destroy_icons sys lib d s).1.desktop.closed ≡ true
  unfolding destroy_icons tell pure
  destroy_icons-closed d s h = ground arith

  -- Closed, and sound.
  give_back-IsSound :
      (s : Screen)
      → IsSound limit font s
      → s.desktop.closed ≡ false
      → IsSound limit font (give_back sys lib s.desktop s).1
        × ((give_back sys lib s.desktop s).1.desktop.closed ≡ true)
  unfolding give_back update
  give_back-IsSound s h opened =
      let hidden = (hide_icon sys lib s.desktop (tell sys kill_timer (mark s)).1).1 in
      let gone =
        when (not (s.desktop.key_window == 0)) (destroy_key_window sys s.desktop.key_window) in
      let free = when s.desktop.key_class (tell sys unregister_class) in
      let t = (free (gone hidden).1).1 in
      let ending : IsEnding limit font s.desktop t =
        (unregister-IsEnding s.desktop).after (gone hidden).1
          ((destroy_key_window-IsEnding s.desktop).after hidden (hide_icon-IsEnding s h opened)) in
      (destroy_icons-IsSound s.desktop t ending, destroy_icons-closed s.desktop t ending)

  pub close-IsSound : Keeps (IsSound limit font) (close sys lib)
  unfolding close desk pure
  close-IsSound = record { after = λ s h. ground (arith, give_back-IsSound s h) }

  pub close-closed : (s : Screen) → IsSound limit font s → (close sys lib s).1.desktop.closed ≡ true
  unfolding close desk pure
  close-closed s h = ground (arith, give_back-IsSound s h)
