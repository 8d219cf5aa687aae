-- ===== src/Handle/Receive/Replay.antt =====
-- Unsequenced packets are taken once: `enet_protocol_handle_send_unsequenced` of original/protocol.c.
use enet_rs.Prelude.{
  ℕ, ◌-◌, ◌%◌, ◌≡◌, refl, ap, sym, subst, ◌≢◌, Bool, true, false, not, ◌||◌, List, length, ◌==◌,
  if◌then◌else◌, bitmap_test-bitmap_set, Bool-cases, inl, inr, arith,
}
use enet_rs.Protocol.{Protocol}
use enet_rs.State.{Peer, Conn, Status, success, failure, unsequenced_window_size}
use enet_rs.Peer.Incoming.{Queued, refused, discarded, queued}
use enet_rs.Peer.Incoming.Window.{Window, window, window-queue_incoming_command}
use enet_rs.Handle.Receive.{
  is_receivable, is_oversized, is_group_beyond, is_group_seen, unwrap_group, advance_window,
  mark_group, mark_queued, handle_send_unsequenced,
}

-- The group lies in the block that the window covers, and the window has all its bits.
record IsCovered (group : ℕ) (w : Window) : Type 0 where
  same_block : group - group % unsequenced_window_size ≡ w.incoming_unsequenced_group
  all_bits : length w.unsequenced_window ≡ 32

advance_window-IsCovered :
    (group : ℕ) (c : Conn)
    → length c.peer.unsequenced_window ≡ 32
    → IsCovered group (window (record c { peer = advance_window group c.peer }))
unfolding window advance_window
advance_window-IsCovered group c h =
    elim (Bool-cases
      (group - group % unsequenced_window_size == c.peer.incoming_unsequenced_group)) [
        | inl e ↦ rw e (record { same_block = ground arith; all_bits = h })
        | inr e ↦ rw e (record { same_block = refl; all_bits = refl })
      ]

mark_group-seen :
    (group : ℕ) (c : Conn)
    → IsCovered group (window c)
    → is_group_seen group (mark_group group c.peer) ≡ true
unfolding window is_group_seen mark_group
mark_group-seen group c h = ground (
  arith,
  h.same_block,
  h.all_bits,
  bitmap_test-bitmap_set c.peer.unsequenced_window (group % unsequenced_window_size)
      (group % unsequenced_window_size),
)

IsCovered-eq : (group : ℕ) (v w : Window) → v ≡ w → IsCovered group w → IsCovered group v
IsCovered-eq group v w e h = subst (IsCovered group) (sym e) h

is_success : Status → Bool
is_success success = true
is_success failure = false

failure≢success : failure ≢ success
unfolding is_success
failure≢success q = absurd (let b : false ≡ true = ap is_success q in ground arith)

mark_queued-seen :
    (group : ℕ) (r : Conn × Queued)
    → IsCovered group (window r.0)
    → (mark_queued group r).1 ≡ success
    → is_group_seen group (mark_queued group r).0.peer ≡ true
unfolding mark_queued
mark_queued-seen group (c, refused) h e = absurd (failure≢success e)
mark_queued-seen group (c, discarded) h e = mark_group-seen group c h
mark_queued-seen group (c, queued k) h e = mark_group-seen group c h

-- What holds of the state and the status that a conditional gives.
Seen : ℕ → Conn × Status → Type 0
Seen group r = r.1 ≡ success → is_group_seen group r.0.peer ≡ true

Seen-if :
    (group : ℕ) (t : Bool) (a b : Conn × Status)
    → (t ≡ true → Seen group a)
    → (t ≡ false → Seen group b)
    → Seen group (if t then a else b)
Seen-if group true a b f g = f refl
Seen-if group false a b f g = g refl

handle_send_unsequenced-Seen :
    (m : Protocol) (group len : ℕ) (payload : List ℕ) (c : Conn)
    → length c.peer.unsequenced_window ≡ 32
    → is_group_beyond group c.peer.incoming_unsequenced_group ≡ false
    → Seen group (handle_send_unsequenced m group len payload c)
unfolding handle_send_unsequenced Seen
handle_send_unsequenced-Seen m group len payload c w b =
    Seen-if group (not (is_receivable m c) || is_oversized len payload c) (c, failure) _
      (λ t e. absurd (failure≢success e))
      (λ t. rw b (
        Seen-if group (is_group_seen group c.peer) (c, success) _ (λ s e. s)
          (λ s e.
            mark_queued-seen group _
              (IsCovered-eq group _ _ (window-queue_incoming_command _ _)
                (advance_window-IsCovered group c w))
              e)))

seen-beyond :
    (group : ℕ) (p : Peer)
    → is_group_seen group p ≡ true
    → is_group_beyond group p.incoming_unsequenced_group ≡ false
unfolding is_group_seen is_group_beyond unwrap_group
seen-beyond group p h = ground arith

seen_again :
    (m : Protocol) (group len : ℕ) (payload : List ℕ) (c : Conn)
    → is_group_seen group c.peer ≡ true
    → is_receivable m c ≡ true
    → is_oversized len payload c ≡ false
    → handle_send_unsequenced m group len payload c ≡ (c, success)
unfolding handle_send_unsequenced
seen_again m group len payload c s r o = rw r (rw o (rw (seen-beyond group c.peer s) (rw s refl)))

-- Once a SEND_UNSEQUENCED of a group was handled with success, and the group did not lie beyond the
-- windows, any further packet of the same group that passes the guards is accepted with success but
-- changes nothing: neither the peer, nor the host, nor the packets in memory. (The first one may
-- itself have been such a repetition, or may have moved the window to its block.)
pub handle_send_unsequenced_once :
    (m m' : Protocol) (group len len' : ℕ) (payload payload' : List ℕ) (c : Conn)
    → length c.peer.unsequenced_window ≡ 32
    → is_group_beyond group c.peer.incoming_unsequenced_group ≡ false
    → (handle_send_unsequenced m group len payload c).1 ≡ success
    → is_receivable m' (handle_send_unsequenced m group len payload c).0 ≡ true
    → is_oversized len' payload' (handle_send_unsequenced m group len payload c).0 ≡ false
    → handle_send_unsequenced m' group len' payload'
        (handle_send_unsequenced m group len payload c).0
      ≡ ((handle_send_unsequenced m group len payload c).0, success)
unfolding Seen
handle_send_unsequenced_once m m' group len len' payload payload' c w b e r o =
    seen_again m' group len' payload' _ (handle_send_unsequenced-Seen m group len payload c w b e) r
      o
