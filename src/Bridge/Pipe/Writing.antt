-- ===== src/Bridge/Pipe/Writing.antt =====
-- Writing one reply to a pipe client.
use winssh_pageant.Common.{
  ℕ, ◌≡◌, ◌≢◌, ◌⊎◌, refl, sym, ap, ◌∙◌, Option, none, some, List, [], ◌∷◌, ◌++◌, ltb, ◌==◌, inl,
  inr, Bool-cases, Bytes, length, take, drop, take-append-drop,
}
use mathlib.Core.Path.{subst}
use mathlib.Core.List.{append_assoc}
use winssh_pageant.Common.Results.{Result, ok, err}
use winssh_pageant.Conn.{IoError, Conn, continue, with_error, set_write_deadline}
use winssh_pageant.Bridge.Pipe.{write_failed, Stop, push, push_reply, write_reply, end_of, ending}

-- `all` went out, or a front of it and the loop ended early.
abbrev pub IsCut : Option Stop → Bytes → Bytes → Type 0
IsCut stop all out = (left : Bytes) × (all ≡ out ++ left) × ((left ≡ []) ⊎ (stop ≢ none))

cut : (out : Bytes) (n : ℕ) (bs : Bytes) → out ++ bs ≡ (out ++ take n bs) ++ drop n bs
cut out n bs = rw (append_assoc out (take n bs) (drop n bs), take-append-drop n bs)

push-IsCut :
    (reply : Bytes) (answers : List (ℕ × Option IoError)) (out : Bytes)
    → IsCut (push reply answers out).stop (out ++ reply) (push reply answers out).bytes
unfolding push
push-IsCut [] answers out = ([], refl, inl refl)
push-IsCut (b ∷ bs) [] out = (b ∷ bs, refl, inr (λ e. cc))
push-IsCut (b ∷ bs) ((n, some e) ∷ answers) out =
    (drop n (b ∷ bs), cut out n (b ∷ bs), inr (λ x. cc))
push-IsCut (b ∷ bs) ((n, none) ∷ answers) out = elim (Bool-cases (n == 0)) [
  | inl none_taken ↦ rw (none_taken, push) (drop n (b ∷ bs), cut out n (b ∷ bs), inr (λ x. cc))
  | inr some_taken ↦ elim (Bool-cases (ltb (length (b ∷ bs)) n)) [
    | inl over ↦ rw (some_taken, over, push) (drop n (b ∷ bs), cut out n (b ∷ bs), inr (λ x. cc))
    | inr taken ↦
        let (left, e, all) = push-IsCut (drop n (b ∷ bs)) answers (out ++ take n (b ∷ bs)) in
        rw (some_taken, taken, push) (left, cut out n (b ∷ bs) ∙ e, all)
  ]
]

-- What was sent before stays in front.
sent_before :
    {stop : Option Stop} (before all out : Bytes)
    → IsCut stop all out
    → IsCut stop (before ++ all) (before ++ out)
sent_before before all out (left, e, whole) =
    (left, ap (λ (t : Bytes). before ++ t) e ∙ sym (append_assoc before out left), whole)

end_of-ending : (o : Option Stop) → end_of (ending o) ≡ o
end_of-ending none = refl
end_of-ending (some s) = refl

push_reply-IsCut :
    (reply : Bytes) (c : Conn)
    → let (r, d) = push_reply reply c in
      IsCut (end_of r) (c.sent ++ reply) d.sent × (d.incoming ≡ c.incoming)
unfolding push_reply
push_reply-IsCut reply c =
    let w = push reply c.write_answers [] in
    let all = sent_before c.sent reply w.bytes (push-IsCut reply c.write_answers []) in
    (
      subst (λ (o : Option Stop). IsCut o (c.sent ++ reply) (c.sent ++ w.bytes))
          (sym (end_of-ending w.stop)) all,
      refl,
    )

after_deadline :
    (reply : Bytes) (c : Conn) (r : Result Stop (Unit {0})) (d : Conn)
    → d.sent ≡ c.sent
    → d.incoming ≡ c.incoming
    → let (r', d') = continue (λ (u : Unit {0}). push_reply reply) (r, d) in
      IsCut (end_of r') (c.sent ++ reply) d'.sent × (d'.incoming ≡ c.incoming)
after_deadline reply c (ok u) d s i =
    let (all, same) = push_reply-IsCut reply d in
    (
      subst
          (λ (t : Bytes).
            IsCut (end_of (push_reply reply d).0) (t ++ reply) (push_reply reply d).1.sent)
          s all,
      same ∙ i,
    )
after_deadline reply c (err e) d s i =
    ((reply, ap (λ (t : Bytes). t ++ reply) (sym s), inr (λ x. cc)), i)

-- After a reply its bytes are on the wire, or a front of them and the loop ends; nothing is read.
pub write_reply-IsCut :
    (reply : Bytes) (c : Conn)
    → let (r, d) = write_reply reply c in
      IsCut (end_of r) (c.sent ++ reply) d.sent × (d.incoming ≡ c.incoming)
unfolding write_reply set_write_deadline
write_reply-IsCut reply c =
    let (r, d) = with_error write_failed (set_write_deadline (some 5)) c in
    after_deadline reply c r d refl refl
