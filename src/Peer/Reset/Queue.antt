-- ===== src/Peer/Reset/Queue.antt =====
-- The host's dispatch queue under `enet_peer_reset` of original/peer.c.
use enet_rs.Prelude.{
  ℕ, List, Bool, true, ◌||◌, ◌==◌, ap, inl, inr, Bool-cases, ◌≡◌, refl, arith, ◌∙◌, false, [], ◌∷◌,
  ◌++◌,
}
use enet_rs.State.{Peer, Host, Conn}
use enet_rs.Peer.Dispatch.{mark_dispatch, is_queued, put_at_end}
use enet_rs.Peer.Reset.{on_disconnect, reset_fields, leave_dispatch_queue, reset_queues, peer_reset}

is_queued-append : (id : ℕ) (xs ys : List ℕ) → is_queued id (xs ++ (id ∷ ys)) ≡ true
unfolding is_queued
is_queued-append id [] ys = ground arith
is_queued-append id (x ∷ xs) ys = let h = is_queued-append id xs ys in ground (arith, h)

put_at_end-append :
    (id : ℕ) (xs ys : List ℕ)
    → is_queued id xs ≡ false
    → put_at_end id (xs ++ (id ∷ ys)) ≡ xs ++ (id ∷ [])
unfolding is_queued put_at_end
put_at_end-append id [] ys h = ground arith
put_at_end-append id (x ∷ xs) ys h = elim (Bool-cases (x == id)) [
  | inl e ↦ absurd (ground (arith, e, h))
  | inr e ↦ rw e (ap (λ zs. x ∷ zs) (put_at_end-append id xs ys (ground (arith, e, h))))
]

or-true : (a b : Bool) → b ≡ true → (a || b) ≡ true
or-true true b e = refl
or-true false b e = e

reset_queues-dispatch_queue :
    (c : Conn)
    → c.peer.needs_dispatch ≡ false
    → ((reset_queues c).host.dispatch_queue ≡ c.host.dispatch_queue)
      × ((reset_queues c).peer.needs_dispatch ≡ false)
      × ((reset_queues c).peer.incoming_peer_id ≡ c.peer.incoming_peer_id)
unfolding reset_queues leave_dispatch_queue
reset_queues-dispatch_queue c h = (rw h refl, rw h refl, rw h refl)

on_disconnect-dispatch_queue :
    (p : Peer) (h : Host) → (on_disconnect p h).dispatch_queue ≡ h.dispatch_queue
unfolding on_disconnect
on_disconnect-dispatch_queue p h = ground arith

peer_reset-dispatch_queue :
    (c : Conn)
    → ((peer_reset c).host.dispatch_queue ≡ c.host.dispatch_queue)
      × ((peer_reset c).peer.needs_dispatch ≡ false)
      × ((peer_reset c).peer.incoming_peer_id ≡ c.peer.incoming_peer_id)
unfolding peer_reset reset_fields
peer_reset-dispatch_queue c =
    let (a, b, d) =
      reset_queues-dispatch_queue
        (record {
          host = on_disconnect c.peer c.host;
          peer = reset_fields (on_disconnect c.peer c.host) c.peer;
        })
        refl in
    (a ∙ on_disconnect-dispatch_queue c.peer c.host, b, d)

-- A reset leaves the host's dispatch queue as it was, also where the peer stands in it. If it does, the
-- next dispatch of the peer inserts its node again, which tangles the queue: of those behind the peer
-- none can be reached any more.
pub peer_reset_keeps_dispatch_queue :
    (c : Conn) (xs ys : List ℕ)
    → c.host.dispatch_queue ≡ xs ++ (c.peer.incoming_peer_id ∷ ys)
    → is_queued c.peer.incoming_peer_id xs ≡ false
    → ((peer_reset c).host.dispatch_queue ≡ xs ++ (c.peer.incoming_peer_id ∷ ys))
      × ((mark_dispatch (peer_reset c)).host.dispatch_tangled ≡ true)
      × ((mark_dispatch (peer_reset c)).host.dispatch_queue ≡ xs ++ (c.peer.incoming_peer_id ∷ []))
unfolding mark_dispatch
peer_reset_keeps_dispatch_queue c xs ys e h =
    let (a, b, d) = peer_reset-dispatch_queue c in
    let q = a ∙ e in
    (
      q,
      rw b (rw d (rw q (or-true _ _ (is_queued-append c.peer.incoming_peer_id xs ys)))),
      rw b (rw d (rw q (put_at_end-append c.peer.incoming_peer_id xs ys h))),
    )
