-- ===== src/Client/Arguments/Safe.antt =====
-- What the arguments of a client may put into a notification.
use winssh_pageant.Common.{
  ◌≡◌, refl, ◌⊎◌, inl, inr, Bool, true, false, not, ◌&&◌, ◌||◌, Bool-cases, Option, none, some,
  Option-cases, List, [], ◌∷◌, ltb, arith, Bytes, codes, length, drop, has_prefix, bytes_eq,
}
use mathlib.Core.Path.{subst}
use winssh_pageant.Library.{Library}
use winssh_pageant.Text.Case.{to_lower}
use winssh_pageant.Client.{ConnectionTarget, no_target}
use winssh_pageant.Client.Target.{Parsers, is_empty, parse_port}
use winssh_pageant.Client.Target.Safe.{
  IsShowable, IsField-or_empty, safe_host-IsHost, parse_port_le, parse_destination-IsShowable,
}
use winssh_pageant.Client.Arguments.{
  is_infix, fields, all_v, no_value, value_flags, spaced, split_option, Next, answers, reads,
  awaits, ends, Mode, plain, last, value_of, set_port, set_named, set_fields, apply_option, goes_on,
  read_destination, read_option, read_argument, read_next, at_end, scan, parse_client_target,
}

Next-cases :
    (n : Next)
    → ((u : ConnectionTarget) × (n ≡ answers u))
      ⊎ (((u : ConnectionTarget) × (has : Bool) × (n ≡ reads u has))
          ⊎ (((option : Bytes) × (n ≡ awaits option)) ⊎ (n ≡ ends)))
Next-cases (answers u) = inl (u, refl)
Next-cases (reads u has) = inr (inl (u, has, refl))
Next-cases (awaits option) = inr (inr (inl (option, refl)))
Next-cases ends = inr (inr (inr refl))

module _ (lib : Library) (parsers : Parsers) where
  -- What an option may lead to.
  abbrev pub IsKept : Option ConnectionTarget → Type 0
  IsKept none = Unit
  IsKept (some t) = IsShowable lib parsers t

  abbrev pub IsNext : Next → Type 0
  IsNext (answers t) = IsShowable lib parsers t
  IsNext (reads t b) = IsShowable lib parsers t
  IsNext (awaits option) = Unit
  IsNext ends = Unit

  no_target-IsShowable : IsShowable lib parsers no_target
  no_target-IsShowable = (inl refl, inl refl, omega arith)

  set_port-IsKept :
      (value : Bytes) (t : ConnectionTarget) → IsShowable lib parsers t → IsKept (set_port value t)
  unfolding set_port
  set_port-IsKept value t (u, h, p) = elim (Option-cases (parse_port value)) [
    | inl bad ↦ rw (bad, set_port) tt
    | inr (n, good) ↦ rw (good, set_port) (u, h, (parse_port_le value good).1)
  ]

  set_named-IsKept :
      (name value : Bytes) (t : ConnectionTarget)
      → IsShowable lib parsers t
      → IsKept (set_named lib parsers name value t)
  unfolding set_named
  set_named-IsKept name value t (u, h, p) = elim (Bool-cases (bytes_eq name (codes "user"))) [
    | inl user ↦ rw (user, set_named) (IsField-or_empty lib value, h, p)
    | inr not_user ↦ elim (Bool-cases (bytes_eq name (codes "hostname"))) [
      | inl host ↦ rw (not_user, host, set_named) (u, safe_host-IsHost lib parsers value, p)
      | inr not_host ↦ elim (Bool-cases (bytes_eq name (codes "port"))) [
        | inl port ↦ rw (not_user, not_host, port, set_named) (set_port-IsKept value t (u, h, p))
        | inr other ↦ rw (not_user, not_host, other, set_named) (u, h, p)
      ]
    ]
  ]

  set_fields-IsKept :
      (parts : List Bytes) (t : ConnectionTarget)
      → IsShowable lib parsers t
      → IsKept (set_fields lib parsers parts t)
  unfolding set_fields
  set_fields-IsKept [] t h = h
  set_fields-IsKept (name ∷ []) t h = h
  set_fields-IsKept (name ∷ value ∷ []) t h = set_named-IsKept (to_lower lib name) value t h
  set_fields-IsKept (name ∷ value ∷ more ∷ parts) t h = h

  goes_on-IsNext : (o : Option ConnectionTarget) (b : Bool) → IsKept o → IsNext (goes_on o b)
  goes_on-IsNext none b h = no_target-IsShowable
  goes_on-IsNext (some t) b h = h

  module _ (ssh putty_gui : Bool) where
    apply_option-IsKept :
        (option value : Bytes) (t : ConnectionTarget)
        → IsShowable lib parsers t
        → IsKept (apply_option lib parsers ssh option value t)
    unfolding apply_option
    apply_option-IsKept option value t (u, h, p) =
        elim (Bool-cases (bytes_eq option (codes "-l"))) [
          | inl login ↦ rw (login, apply_option) (IsField-or_empty lib value, h, p)
          | inr not_login ↦ elim (Bool-cases (ports option)) [
            | inl port ↦ rw (not_login, port, apply_option) (set_port-IsKept value t (u, h, p))
            | inr not_port ↦ elim (Bool-cases (not ssh && bytes_eq option (codes "-load"))) [
              | inl load ↦ rw (not_login, not_port, load, apply_option) (u, h, p)
              | inr not_load ↦ elim (Bool-cases (ssh && bytes_eq option (codes "-o"))) [
                | inl named ↦
                    rw (not_login, not_port, not_load, named, apply_option)
                      (set_fields-IsKept (fields value) t (u, h, p))
                | inr other ↦ rw (not_login, not_port, not_load, other, apply_option) (u, h, p)
              ]
            ]
          ]
        ]
      where
        ports : Bytes → Bool
        ports option =
            (ssh && bytes_eq option (codes "-p")) || (not ssh && bytes_eq option (codes "-P"))

    read_destination-IsNext :
        (arg : Bytes) (b : Bool) (t : ConnectionTarget)
        → IsShowable lib parsers t
        → IsNext (read_destination lib parsers putty_gui arg b t)
    unfolding read_destination
    read_destination-IsNext arg true t h = no_target-IsShowable
    read_destination-IsNext arg false t h = elim (Bool-cases putty_gui) [
      | inl gui ↦ rw (gui, read_destination) (parse_destination-IsShowable lib parsers arg t h)
      | inr other ↦ rw (other, read_destination) (parse_destination-IsShowable lib parsers arg t h)
    ]

    read_option-IsNext :
        (arg : Bytes) (b : Bool) (t : ConnectionTarget)
        → IsShowable lib parsers t
        → IsNext (read_option lib parsers ssh putty_gui arg b t)
    unfolding read_option
    read_option-IsNext arg b t h =
        let (option, attached) = split_option ssh arg in
        let flag =
          (ssh && ltb 2 (length arg) && all_v (drop 1 arg))
          || is_infix (spaced option) (no_value ssh) in
        elim (Bool-cases flag) [
          | inl alone ↦ rw (alone, read_option) h
          | inr not_alone ↦ elim (Bool-cases (not (is_infix (spaced option) (value_flags ssh)))) [
            | inl unknown ↦ rw (not_alone, unknown, read_option) no_target-IsShowable
            | inr known ↦ elim (Bool-cases (is_empty attached)) [
              | inl apart ↦ rw (not_alone, known, apart, read_option) tt
              | inr together ↦
                  rw (not_alone, known, together, read_option)
                    (goes_on-IsNext (apply_option lib parsers ssh option attached t) b
                      (apply_option-IsKept option attached t h))
            ]
          ]
        ]

    read_argument-IsNext :
        (arg : Bytes) (b : Bool) (t : ConnectionTarget)
        → IsShowable lib parsers t
        → IsNext (read_argument lib parsers ssh putty_gui arg b t)
    unfolding read_argument
    read_argument-IsNext arg b t h = elim (Bool-cases (bytes_eq arg (codes "--"))) [
      | inl end ↦ rw (end, read_argument) tt
      | inr more ↦ elim (Bool-cases (not (has_prefix (codes "-") arg))) [
        | inl free ↦ rw (more, free, read_argument) (read_destination-IsNext arg b t h)
        | inr dashed ↦ rw (more, dashed, read_argument) (read_option-IsNext arg b t h)
      ]
    ]

    read_next-IsNext :
        (mode : Mode) (arg : Bytes) (b : Bool) (t : ConnectionTarget)
        → IsShowable lib parsers t
        → IsNext (read_next lib parsers ssh putty_gui mode arg b t)
    unfolding read_next
    read_next-IsNext plain arg b t h = read_argument-IsNext arg b t h
    read_next-IsNext last arg b t h = parse_destination-IsShowable lib parsers arg t h
    read_next-IsNext (value_of option) arg b t h =
        goes_on-IsNext (apply_option lib parsers ssh option arg t) b
          (apply_option-IsKept option arg t h)

    at_end-IsShowable :
        (mode : Mode) (t : ConnectionTarget)
        → IsShowable lib parsers t
        → IsShowable lib parsers (at_end mode t)
    at_end-IsShowable plain t h = h
    at_end-IsShowable last t h = h
    at_end-IsShowable (value_of option) t h = no_target-IsShowable

    scan-IsShowable :
        (args : List Bytes) (mode : Mode) (b : Bool) (t : ConnectionTarget)
        → IsShowable lib parsers t
        → IsShowable lib parsers (scan lib parsers ssh putty_gui mode b t args)
    unfolding scan
    scan-IsShowable [] mode b t h = at_end-IsShowable mode t h
    scan-IsShowable (arg ∷ args) mode b t h =
        let next = read_next-IsNext mode arg b t h in
        elim (Next-cases (read_next lib parsers ssh putty_gui mode arg b t)) [
          | inl (u, e) ↦ rw (e, scan) (subst IsNext e next)
          | inr (inl (u, has, e)) ↦
              rw (e, scan) (scan-IsShowable args plain has u (subst IsNext e next))
          | inr (inr (inl (option, e))) ↦
              rw (e, scan) (scan-IsShowable args (value_of option) b t h)
          | inr (inr (inr e)) ↦ rw (e, scan) (scan-IsShowable args last b t h)
        ]

  -- Whatever a client's command line holds, the target that is read from it is empty or well formed
  -- in each part that a notification shows.
  pub parse_client_target-IsShowable :
      (equal_fold : Bytes → Bytes → Bool) (app : Bytes) (args : List Bytes)
      → IsShowable lib parsers (parse_client_target lib parsers equal_fold app args)
  unfolding parse_client_target
  parse_client_target-IsShowable equal_fold app args = elim (Bool-cases (foreign app)) [
    | inl other ↦ rw (other, parse_client_target) no_target-IsShowable
    | inr known ↦
        rw (known, parse_client_target)
          (scan-IsShowable (equal_fold app (codes "ssh.exe")) (equal_fold app (codes "putty.exe"))
            args plain false (record no_target { source = codes "inferred client arguments" })
            no_target-IsShowable)
  ]
    where
      foreign : Bytes → Bool
      foreign app =
          not (equal_fold app (codes "ssh.exe"))
          && not (equal_fold app (codes "putty.exe"))
          && not (equal_fold app (codes "plink.exe"))
          && not (equal_fold app (codes "tortoisegitplink.exe"))
