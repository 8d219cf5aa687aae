-- ===== src/Peer/Incoming/Insert.antt =====
-- The reliable queue of a channel when `enet_peer_queue_incoming_command` of original/peer.c inserts a
-- command.
use enet_rs.Prelude.{
  Bool, true, false, ℕ, zero, suc, ◌+◌, ◌-◌, ◌<◌, ◌≤◌, ◌≡◌, refl, sym, ap, subst, ◌∙◌, List, [],
  ◌∷◌, ◌++◌, length, take, drop, length-append, length-drop, take-append_self, drop-append_self,
  ◌==◌, if◌then◌else◌, arith,
}
use mathlib.Core.List.{reverse, reverse-cons, reverse-append, append_assoc}
use enet_rs.State.{IncomingCommand, Channel}
use enet_rs.Peer.Incoming.{
  discard, Place, duplicate, before_last, reliable_place, insert_before_last, insert_at,
  reliable_target, target_reliable,
}
use enet_rs.Peer.Incoming.Order.{
  IsDescending, IsPlaced, is_there, goes_here, goes_past, inserted, reliable_place-IsDescending,
  reliable_place-IsPlaced,
}

length-reverse : (xs : List IncomingCommand) → length (reverse xs) ≡ length xs
length-reverse [] = refl
length-reverse (x ∷ xs) =
    ap length (reverse-cons x xs)
    ∙ omega (arith, length-append (reverse xs) (x ∷ []), length-reverse xs)

take-drop : (m : ℕ) (xs : List IncomingCommand) → take m xs ++ drop m xs ≡ xs
take-drop zero xs = refl
take-drop (suc m) [] = refl
take-drop (suc m) (x ∷ xs) = ap (◌∷◌ x) (take-drop m xs)

-- An insertion before the last elements, seen from the end.
insert_split :
    (x : IncomingCommand) (front back : List IncomingCommand)
    → reverse (front ++ (x ∷ back))
      ≡ take (length (reverse back)) (reverse (front ++ back))
        ++ (x ∷ drop (length (reverse back)) (reverse (front ++ back)))
insert_split x front back =
    let whole = reverse-append front back in
    reverse-append front (x ∷ back)
    ∙ ap (λ r. r ++ reverse front) (reverse-cons x back)
    ∙ append_assoc (reverse back) (x ∷ []) (reverse front)
    ∙ ap (λ r. r ++ (x ∷ reverse front)) (sym (take-append_self (reverse back) (reverse front)))
    ∙ ap (λ r. take (length (reverse back)) (reverse back ++ reverse front) ++ (x ∷ r))
        (sym (drop-append_self (reverse back) (reverse front)))
    ∙ ap (λ r. take (length (reverse back)) r ++ (x ∷ drop (length (reverse back)) r)) (sym whole)

reverse-insert_before_last :
    (k : ℕ) (x : IncomingCommand) (xs : List IncomingCommand)
    → k ≤ length xs
    → reverse (insert_before_last k x xs) ≡ inserted 0 x (before_last k) (reverse xs)
reverse-insert_before_last k x xs h =
    let m = length xs - k in
    let size : length (reverse (drop m xs)) ≡ k - 0 =
      omega (arith, length-reverse (drop m xs), length-drop m xs) in
    insert_split x (take m xs) (drop m xs)
    ∙ ap
        (λ r.
          take (length (reverse (drop m xs))) (reverse r)
          ++ (x ∷ drop (length (reverse (drop m xs))) (reverse r)))
        (take-drop m xs)
    ∙ ap (λ n. take n (reverse xs) ++ (x ∷ drop n (reverse xs))) size

-- No more commands are skipped than the queue has.
AtMost : ℕ → Place → Type 0
AtMost n duplicate = n ≤ n
AtMost n (before_last k) = k ≤ n

AtMost-eq : (m n : ℕ) (p : Place) → m ≡ n → AtMost m p → AtMost n p
AtMost-eq m n p e h = subst (λ k. AtMost k p) e h

place-AtMost :
    (current number skipped : ℕ) (is : List IncomingCommand) (p : Place)
    → IsPlaced current number is skipped p
    → AtMost (skipped + length is) p
unfolding AtMost
place-AtMost current number skipped _ _ (is_there i is _ e) = omega arith
place-AtMost current number skipped _ _ (goes_here is _ a) = omega arith
place-AtMost current number skipped _ _ (goes_past i is _ p l r) =
    AtMost-eq (skipped + 1 + length is) (skipped + suc (length is)) p (omega arith)
      (place-AtMost current number (skipped + 1) is p r)

insert_placed :
    (current : ℕ) (x : IncomingCommand) (ch : Channel) (p : Place)
    → AtMost (0 + length (reverse ch.incoming_reliable_commands)) p
    → IsDescending current (inserted 0 x p (reverse ch.incoming_reliable_commands))
    → IsDescending current (reverse (insert_at (reliable_target p) x ch).incoming_reliable_commands)
unfolding AtMost
insert_placed current x ch duplicate h d = d
insert_placed current x ch (before_last k) h d =
    subst (IsDescending current)
      (sym (
        reverse-insert_before_last k x ch.incoming_reliable_commands
          (omega (arith, length-reverse ch.incoming_reliable_commands, h))))
      d

insert_target :
    (t : Bool) (current : ℕ) (x : IncomingCommand) (ch : Channel) (p : Place)
    → IsDescending current (reverse ch.incoming_reliable_commands)
    → IsDescending current (reverse (insert_at (reliable_target p) x ch).incoming_reliable_commands)
    → IsDescending current (
        reverse
          (insert_at (if t then discard else reliable_target p) x ch).incoming_reliable_commands)
insert_target true current x ch p d e = d
insert_target false current x ch p d e = e

-- A channel's reliable queue is in order if, from its end to its front, the numbers lie ever less far
-- ahead of the channel's number, around the wrap of 16 bits; then no number is in it twice. It stays in
-- order when a reliable command or a collecting command for fragments, with any 16-bit number, is put
-- in where `enet_peer_queue_incoming_command` decides, or is discarded.
pub insert_at-IsDescending :
    (x : IncomingCommand) (ch : Channel)
    → x.reliable_sequence_number < 65536
    → ch.incoming_reliable_sequence_number < 65536
    → IsDescending ch.incoming_reliable_sequence_number (reverse ch.incoming_reliable_commands)
    → IsDescending ch.incoming_reliable_sequence_number (
        reverse
          (insert_at
            (target_reliable x.reliable_sequence_number ch)
            x
            ch).incoming_reliable_commands)
insert_at-IsDescending x ch b k d =
    let current = ch.incoming_reliable_sequence_number in
    let queue = reverse ch.incoming_reliable_commands in
    let p = reliable_place x.reliable_sequence_number current queue 0 in
    insert_target (x.reliable_sequence_number == current) current x ch p d (
      insert_placed current x ch p
        (place-AtMost current x.reliable_sequence_number 0 queue p
          (reliable_place-IsPlaced x.reliable_sequence_number current queue 0 b k d))
        (reliable_place-IsDescending current x queue b k d))
