-- ===== src/Desktop/Notices.antt =====
-- The queue of `notify` in pageant/desktop_windows.go has room for 16, and a caller never waits
-- for it.
use winssh_pageant.Common.{
  true, ◌+◌, ◌++◌, ◌∷◌, [], refl, Bool-cases, ◌<◌, ◌≤◌, ◌≡◌, ◌⊎◌, inl, inr, false, ltb, arith,
  Bytes, length, length-append,
}
use winssh_pageant.Common.Acts.{pure}
use winssh_pageant.Library.{Library}
use winssh_pageant.Text.{clean_ui_text}
use winssh_pageant.Desktop.State.{post, System, Notice, Screen, desk, update, tell}
use winssh_pageant.Desktop.Tray.{notify, capacity}

-- A notification is queued behind those before it, with its title and its body cleaned, and the
-- window is told of it, if the desktop is not closed and its channel has room; else it is dropped,
-- nothing changes and nothing is called. So the queue never outgrows its channel.
pub notify_queue :
    (sys : System) (lib : Library) (title body : Bytes) (s : Screen)
    → length s.desktop.notices ≤ capacity
    → let after = (notify sys lib title body s).1 in
      (length after.desktop.notices ≤ capacity)
      × (((s.desktop.closed ≡ false)
            × (length s.desktop.notices < 16)
            × ((n : Notice) × (n.title ≡ clean_ui_text lib title)
                × (n.body ≡ clean_ui_text lib body)
                × (after.desktop ≡ record s.desktop { notices = s.desktop.notices ++ (n ∷ []) }))
            × (after.history
                ≡ (post (0x8000 + 52), sys.answer s.history (post (0x8000 + 52))) ∷ s.history))
          ⊎ (((s.desktop.closed ≡ true) ⊎ (16 ≤ length s.desktop.notices)) × (after ≡ s)))
unfolding notify desk update tell pure
notify_queue sys lib title body s h =
    let n : Notice = record { title = clean_ui_text lib title; body = clean_ui_text lib body } in
    let queue = s.desktop.notices in
    elim (Bool-cases s.desktop.closed) [
      | inl shut ↦ rw (shut, notify) (h, inr (inl refl, refl))
      | inr open_d ↦ elim (Bool-cases (ltb (length queue) capacity)) [
        | inl room ↦
            let less : length queue < capacity = ground (arith, room) in
            rw (open_d, room, notify)
              (
                omega (arith, less, length-append queue (n ∷ [])),
                inl (refl, less, (n, refl, refl, refl), refl),
              )
        | inr full ↦ rw (open_d, full, notify) (h, inr (inr (ground (arith, full)), refl))
      ]
    ]
