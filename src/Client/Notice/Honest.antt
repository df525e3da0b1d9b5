-- ===== src/Client/Notice/Honest.antt =====
-- What a notification may claim.
use winssh_pageant.Common.{
  ◌≡◌, ◌≢◌, refl, ap, ◌↔◌, ◌⊎◌, drop, true, false, not, ◌&&◌, Bool-cases, none, some, Option-cases,
  inl, inr, [], ◌∷◌, ◌++◌, ◌==◌, if◌then◌else◌, arith, Bytes, codes,
}
use winssh_pageant.Library.{Library}
use winssh_pageant.Wire.{validate_response, message_type}
use winssh_pageant.Sign.{SignRequest, parse_sign_request}
use winssh_pageant.Client.{ConnectionTarget, ClientInfo}
use winssh_pageant.Client.Target.{is_empty}
use winssh_pageant.Client.Unique.{unique_tcp_target}
use winssh_pageant.Client.Notice.{
  key_used, key_failed, is_signature, app_line, where_line, signing_notice, Process, named_target,
  notify_signing,
}

is_signature_iff :
    (response : Bytes)
    → (is_signature response ≡ true)
      ↔ ((validate_response response ≡ none) × (message_type response ≡ 14))
unfolding is_signature
is_signature_iff response = ground arith

signed_apart : (response : Bytes) → is_signature response ≡ false → is_signature response ≢ true
signed_apart response e f = cc

titles_differ : key_failed ≢ key_used
titles_differ e = differ (ap (drop 8) e)
  where
    differ : drop 8 key_failed ≢ drop 8 key_used
    differ e = cc

-- The title speaks of a used key exactly if the reply is a valid signature reply.
pub signing_notice_title :
    (sign : SignRequest) (response : Bytes) (client : ClientInfo) (target : ConnectionTarget)
    → ((signing_notice sign response client target).0 ≡ key_used)
      ↔ ((validate_response response ≡ none) × (message_type response ≡ 14))
unfolding signing_notice is_signature
signing_notice_title sign response client target = elim (Bool-cases (is_signature response)) [
  | inl used ↦ rw used ((λ e. (is_signature_iff response).0 used), (λ v. refl))
  | inr failed ↦ rw failed (
    (λ e. absurd (titles_differ e)),
    (λ v. absurd (signed_apart response failed ((is_signature_iff response).1 v))),
  )
]

-- A signature that is no login is never given a host, whatever sockets the client has and whatever
-- its arguments say.
pub notify_signing_generic :
    (lib : Library) (request response : Bytes) (client : ClientInfo) (process : Process)
    {sign : SignRequest}
    → parse_sign_request lib request ≡ some sign
    → sign.username ≡ []
    → notify_signing lib true request response client process
      ≡ some (
        if is_signature response then key_used else key_failed,
        app_line client ++ (codes "\nTarget unavailable\n" ++ sign.fingerprint),
      )
unfolding notify_signing signing_notice named_target where_line
notify_signing_generic lib request response client process {sign} e anonymous =
    ground (arith, e, anonymous)

not_empty : (s : Bytes) → s ≢ [] → is_empty s ≡ false
not_empty [] h = absurd (h refl)
not_empty (b ∷ bs) h = ground arith

-- A login's target carries the name that the signature was made for, and its host comes from the
-- client's arguments or is the one endpoint of the same process.
pub named_target_login :
    (sign : SignRequest) (client : ClientInfo) (process : Process)
    → sign.username ≢ []
    → let t = named_target sign client process in
      (t.user ≡ sign.username)
      × ((t.host ≡ client.target.host)
          ⊎ ((u : ConnectionTarget) × (unique_tcp_target process.tables ≡ some u)
              × (process.is_own ≡ true)
              × (process.started_now ≡ client.started)
              × (t.host ≡ u.host)
              × (t.port ≡ u.port)))
unfolding named_target
named_target_login sign client process login =
    let named : is_empty sign.username ≡ false = not_empty sign.username login in
    let asked =
      is_empty client.target.host
      && not (client.pid == 0)
      && not (client.started == 0)
      && process.is_own
      && process.started_now == client.started in
    elim (Bool-cases asked) [
      | inr known ↦ (ground (arith, named, known), inl (ground (arith, named, known)))
      | inl unknown ↦ elim (Option-cases (unique_tcp_target process.tables)) [
        | inl several ↦
            (ground (arith, named, unknown, several), inl (ground (arith, named, unknown, several)))
        | inr (u, only) ↦ (
          ground (arith, named, unknown, only),
          inr (
            u,
            only,
            ground (arith, unknown),
            ground (arith, unknown),
            ground (arith, named, unknown, only),
            ground (arith, named, unknown, only),
          ),
        )
      ]
    ]
