-- ===== src/Desktop/Sound/Keys.antt =====
-- The window that lists keys keeps the invariant.
use winssh_pageant.Common.{
  ℕ, suc, ◌≡◌, ◌≢◌, inl, inr, Bool, true, false, not, Option, none, List, [], ◌∷◌, ◌==◌, arith,
  Option-cases, Bool-cases,
}
use winssh_pageant.Common.Acts.{Keeps, Keeps-bind, pure, gets}
use winssh_pageant.Library.{Library}
use winssh_pageant.Keys.{Key}
use winssh_pageant.Desktop.State.{
  create_window, destroy_window, redraw, System, KeyResult, Desktop, Screen, desk, update, ask,
  tell,
}
use winssh_pageant.Desktop.Keys.{
  forget_window, destroy_key_window, window_dpi, update_font, layout_keys, show_row, show_rows,
  show_status, fill_list, display_keys, refresh_keys, load_ends, take_result,
}
use winssh_pageant.Desktop.Window.{
  register_key_class, key_class_ready, column, insert_columns, present_window, finish_key_window,
  create_controls, fit_window, fill_window, open_window, restore_window, show_keys,
}
use winssh_pageant.Desktop.Tray.{utf8}
use winssh_pageant.Text.{clean_ui_text}
use winssh_pageant.Desktop.Sound.{IsSound}

-- The window is there.
pub record IsOpen (limit : Option ℕ) (font : ℕ) (s : Screen) : Type 0 where
  pub sound : IsSound limit font s
  pub there : s.desktop.key_window ≢ 0

module _ {limit : Option ℕ} {font : ℕ} (sys : System) where
  pub forget_window-IsSound : Keeps (IsSound limit font) (forget_window sys)
  unfolding forget_window desk update tell pure
  forget_window-IsSound = record { after = λ s h. ground arith }

  pub destroy_key_window-IsSound : (w : ℕ) → Keeps (IsSound limit font) (destroy_key_window sys w)
  unfolding destroy_key_window ask pure
  destroy_key_window-IsSound w = record {
    after = λ s h. ground (arith, forget_window-IsSound.after (ask sys (destroy_window w) s).1);
  }

  pub update_font-IsOpen : Keeps (IsOpen limit font) (update_font sys)
  unfolding update_font desk update tell ask pure
  update_font-IsOpen = record { after = λ s h. ground (arith, h.sound) }

  layout_keys-IsOpen : Keeps (IsOpen limit font) (layout_keys sys)
  unfolding layout_keys desk gets tell pure
  layout_keys-IsOpen = record { after = λ s h. ground (arith, h.sound) }

  pub layout_keys-IsSound : Keeps (IsSound limit font) (layout_keys sys)
  unfolding layout_keys desk gets tell pure
  layout_keys-IsSound = record { after = λ s h. ground arith }

module _ {limit : Option ℕ} {font : ℕ} (sys : System) (lib : Library) where
  show_row-IsSound :
      (list index : ℕ) (k : Key) → Keeps (IsSound limit font) (show_row sys lib list index k)
  unfolding show_row tell
  show_row-IsSound list index k = record { after = λ s h. ground arith }

  show_rows-IsSound :
      (list index : ℕ) (ks : List Key)
      → Keeps (IsSound limit font) (show_rows sys lib list index ks)
  unfolding show_rows pure
  show_rows-IsSound list index [] = record { after = λ s h. h }
  show_rows-IsSound list index (k ∷ ks) = record {
    after = λ s h.
        (show_rows-IsSound list (suc index) ks).after (show_row sys lib list index k s).1
          ((show_row-IsSound list index k).after s h);
  }

  refresh_keys-IsOpen : Keeps (IsOpen limit font) (refresh_keys sys lib)
  unfolding refresh_keys desk update tell pure
  refresh_keys-IsOpen = record { after = λ s h. ground (arith, h.sound) }

  pub refresh_keys-IsSound : Keeps (IsSound limit font) (refresh_keys sys lib)
  unfolding refresh_keys desk update tell pure
  refresh_keys-IsSound = record { after = λ s h. ground arith }

  pub load_ends-IsSound :
      (result : KeyResult) (s : Screen)
      → IsSound limit font s
      → s.desktop.loads ≢ 0
      → IsSound limit font (load_ends sys lib result s).1
  unfolding load_ends desk update tell pure
  load_ends-IsSound result s h busy = ground arith

  create_controls-IsOpen : Keeps (IsOpen limit font) (create_controls sys lib)
  unfolding create_controls desk update ask pure
  create_controls-IsOpen = record { after = λ s h. ground (arith, h.sound) }

  fit_window-IsOpen : Keeps (IsOpen limit font) (fit_window sys lib)
  unfolding fit_window window_dpi desk update ask tell pure
  fit_window-IsOpen = record { after = λ s h. ground (arith, h.sound) }

  show_status-IsSound :
      (d : Desktop) (result : KeyResult) → Keeps (IsSound limit font) (show_status sys lib d result)
  unfolding show_status tell
  show_status-IsSound d result = record { after = λ s h. ground arith }

  redraw-IsSound : (list : ℕ) (on : Bool) → Keeps (IsSound limit font) (tell sys (redraw list on))
  unfolding tell
  redraw-IsSound list on = record { after = λ s h. ground arith }

  fill_list-IsSound :
      (d : Desktop) (keys : List Key) → Keeps (IsSound limit font) (fill_list sys lib d keys)
  unfolding fill_list
  fill_list-IsSound d keys =
      Keeps-bind (tell sys (redraw d.key_list false)) _ (redraw-IsSound d.key_list false) λ u.
        Keeps-bind (show_rows sys lib d.key_list 0 keys) _ (show_rows-IsSound d.key_list 0 keys)
          λ v.
            Keeps-bind (tell sys (redraw d.key_list true)) _ (redraw-IsSound d.key_list true)
              λ u. layout_keys-IsSound sys

  display_keys-IsSound :
      (result : KeyResult) → Keeps (IsSound limit font) (display_keys sys lib result)
  unfolding display_keys desk pure
  display_keys-IsSound result = record {
    after = λ s h.
        let t = (show_status sys lib s.desktop result s).1 in
        let shown = (show_status-IsSound s.desktop result).after s h in
        ground (arith, shown, (fill_list-IsSound s.desktop result.keys).after t shown);
  }

  pub take_result-IsSound : Keeps (IsSound limit font) (take_result sys lib)
  unfolding take_result pure
  take_result-IsSound = record {
    after = λ s h. elim (Option-cases s.desktop.keys_ready) [
      | inl nothing ↦ rw (nothing, take_result) h
      | inr (result, ready) ↦
          let d = record s.desktop { keys_ready = none; loading_keys = false } in
          let t : Screen = record s { desktop = d } in
          let taken : IsSound limit font t = ground (arith, ready) in
          ground (arith, ready, taken, (display_keys-IsSound result).after t taken)
    ];
  }

  insert_columns-IsOpen : Keeps (IsOpen limit font) (insert_columns sys lib)
  unfolding insert_columns column desk tell
  insert_columns-IsOpen = record { after = λ s h. ground (arith, h.sound) }

  present_window-IsOpen : Keeps (IsOpen limit font) (present_window sys lib)
  unfolding present_window desk tell
  present_window-IsOpen = record { after = λ s h. ground (arith, h.sound) }

  finish_key_window-IsOpen : Keeps (IsOpen limit font) (finish_key_window sys lib)
  unfolding finish_key_window
  finish_key_window-IsOpen = Keeps-bind (insert_columns sys lib) _ insert_columns-IsOpen λ u.
      Keeps-bind (update_font sys) _ (update_font-IsOpen sys) λ v.
        Keeps-bind (layout_keys sys) _ (layout_keys-IsOpen sys)
          λ w. Keeps-bind (present_window sys lib) _ present_window-IsOpen λ x. refresh_keys-IsOpen

  fill_window-IsSound :
      (s : Screen) → IsOpen limit font s → IsSound limit font (fill_window sys lib s).1
  unfolding fill_window desk pure
  fill_window-IsSound s h =
      let t = (fit_window sys lib s).1 in
      let u = (create_controls sys lib t).1 in
      let made : IsOpen limit font u =
        create_controls-IsOpen.after t (fit_window-IsOpen.after s h) in
      ground (
        arith,
        (finish_key_window-IsOpen.after u made).sound,
        (destroy_key_window-IsSound sys u.desktop.key_window).after u made.sound,
      )

  open_window-IsSound :
      (s : Screen)
      → IsSound limit font s
      → s.desktop.key_window ≡ 0
      → IsSound limit font (open_window sys lib s).1
  unfolding open_window update ask pure
  open_window-IsSound s h closed =
      let (w, asked) =
        ask sys (create_window (clean_ui_text lib (utf8 "SSH keys — winssh-pageant"))) s in
      let t : Screen = record asked { desktop = record s.desktop { key_window = w } } in
      let sound : IsSound limit font t = ground (arith, closed) in
      elim (Bool-cases (w == 0)) [
        | inl failed ↦ rw (failed, open_window) sound
        | inr opened ↦
            let there : IsOpen limit font t = record {
              sound = sound;
              there = ground (arith, opened);
            } in
            rw (opened, open_window) (fill_window-IsSound t there)
      ]

  -- The class is registered or not; the window is as before.
  key_class_ready-IsSound :
      (s : Screen)
      → IsSound limit font s
      → IsSound limit font (key_class_ready sys lib s).1
        × ((key_class_ready sys lib s).1.desktop.key_window ≡ s.desktop.key_window)
  unfolding key_class_ready register_key_class desk update ask pure
  key_class_ready-IsSound s h = ground arith

  restore_window-IsSound : (d : Desktop) → Keeps (IsSound limit font) (restore_window sys lib d)
  unfolding restore_window tell
  restore_window-IsSound d = record { after = λ s h. ground arith }

  pub show_keys-IsSound : Keeps (IsSound limit font) (show_keys sys lib)
  unfolding show_keys desk pure
  show_keys-IsSound = record {
    after = λ s h. elim (Bool-cases (not (s.desktop.key_window == 0))) [
      | inl there ↦ rw (there, show_keys) ((restore_window-IsSound s.desktop).after s h)
      | inr closed ↦
          let t = (key_class_ready sys lib s).1 in
          let (sound, same) = key_class_ready-IsSound s h in
          let empty : t.desktop.key_window ≡ 0 = ground (arith, same, closed) in
          ground (arith, closed, sound, open_window-IsSound t sound empty)
    ];
  }
