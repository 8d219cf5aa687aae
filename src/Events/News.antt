-- ===== src/Events/News.antt =====
-- Which peers in the dispatch queue have an event for the user:
-- `enet_protocol_dispatch_incoming_commands` of original/protocol.c.
use enet_rs.Prelude.{
  ℕ, zero, suc, ◌≡◌, refl, sym, ◌∙◌, ap, inl, inr, Bool, true, false, not, ◌||◌, List, [], ◌∷◌,
  get_or, set, is_empty, if◌then◌else◌, Bool-cases, arith,
}
use enet_rs.State.{
  PeerState, IncomingCommand, Peer, Conn, disconnected, connecting, acknowledging_connect,
  connection_pending, connection_succeeded, connected, disconnect_later, disconnecting,
  acknowledging_disconnect, zombie,
}
use enet_rs.World.{World, zero_peer, get_peer, focus}
use enet_rs.Peer.Dispatch.{receive_first, receive}
use enet_rs.Handle.Notify.{Event}
use enet_rs.Events.{
  no_dispatch, leave_queue, dispatch_connect, dispatch_disconnect, after_receive, dispatch_receive,
  dispatch_for, Checkup, dispatch_front, dispatch_events, dispatch_incoming_commands,
}

-- A peer has news: it has just connected or is gone, or it has packets that were delivered.
abbrev news_in : PeerState → List IncomingCommand → Bool
news_in connection_pending is = true
news_in connection_succeeded is = true
news_in zombie is = true
news_in connected is = not (is_empty is)
news_in _ is = false

abbrev pub has_news : Peer → Bool
has_news p = news_in p.state p.dispatched_commands

-- Some peer of the queue has news.
abbrev pub any_news : World → List ℕ → Bool
any_news w [] = false
any_news w (id ∷ ids) = has_news (get_peer w id) || any_news w ids

received_found :
    (e : Event) (is : List IncomingCommand) (c : Conn)
    → is_empty is ≡ false
    → (after_receive e (receive_first is c)).found ≡ true
received_found e [] c h = absurd (cc h)
received_found e (i ∷ is) c h = refl

dispatch_receive-found :
    (e : Event) (c : Conn)
    → (dispatch_receive e c).found ≡ not (is_empty c.peer.dispatched_commands)
unfolding dispatch_receive receive
dispatch_receive-found e c = elim (Bool-cases (is_empty c.peer.dispatched_commands)) [
  | inl h ↦ rw h refl
  | inr h ↦ rw h (received_found e c.peer.dispatched_commands c h)
]

-- The switch finds an event just where there is news.
dispatch_for-found :
    (s : PeerState) (e : Event) (c : Conn)
    → (dispatch_for s e c).found ≡ news_in s c.peer.dispatched_commands
unfolding dispatch_for dispatch_connect dispatch_disconnect
dispatch_for-found connection_pending e c = refl
dispatch_for-found connection_succeeded e c = refl
dispatch_for-found zombie e c = refl
dispatch_for-found connected e c = dispatch_receive-found e c
dispatch_for-found disconnected e c = refl
dispatch_for-found connecting e c = refl
dispatch_for-found acknowledging_connect e c = refl
dispatch_for-found disconnect_later e c = refl
dispatch_for-found disconnecting e c = refl
dispatch_for-found acknowledging_disconnect e c = refl

-- Without news the peer stays as it is.
dispatch_for-no_news :
    (s : PeerState) (e : Event) (c : Conn)
    → news_in s c.peer.dispatched_commands ≡ false
    → dispatch_for s e c ≡ no_dispatch e c
unfolding dispatch_for dispatch_receive
dispatch_for-no_news connection_pending e c h = absurd (cc h)
dispatch_for-no_news connection_succeeded e c h = absurd (cc h)
dispatch_for-no_news zombie e c h = absurd (cc h)
dispatch_for-no_news connected e c h = elim (Bool-cases (is_empty c.peer.dispatched_commands)) [
  | inl g ↦ rw g refl
  | inr g ↦ absurd (ground (arith, g, h))
]
dispatch_for-no_news disconnected e c h = refl
dispatch_for-no_news connecting e c h = refl
dispatch_for-no_news acknowledging_connect e c h = refl
dispatch_for-no_news disconnect_later e c h = refl
dispatch_for-no_news disconnecting e c h = refl
dispatch_for-no_news acknowledging_disconnect e c h = refl

has_news-set :
    (ps : List Peer) (place id : ℕ) (p : Peer)
    → has_news p ≡ has_news (get_or ps place zero_peer)
    → has_news (get_or (set ps place p) id zero_peer) ≡ has_news (get_or ps id zero_peer)
has_news-set [] place id p h = refl
has_news-set (q ∷ ps) zero zero p h = h
has_news-set (q ∷ ps) zero (suc id) p h = refl
has_news-set (q ∷ ps) (suc place) zero p h = refl
has_news-set (q ∷ ps) (suc place) (suc id) p h = has_news-set ps place id p h

any_news-set :
    (v w : World) (place : ℕ) (p : Peer) (ids : List ℕ)
    → v.peers ≡ set w.peers place p
    → has_news p ≡ has_news (get_peer w place)
    → any_news v ids ≡ any_news w ids
any_news-set v w place p [] e h = refl
any_news-set v w place p (id ∷ ids) e h = λ i.
    (ap (λ ps. has_news (get_or ps id zero_peer)) e ∙ has_news-set w.peers place id p h) i
    || any_news-set v w place p ids e h i

dispatch_front-found :
    (id : ℕ) (ids : List ℕ) (e : Event) (w : World)
    → (dispatch_front id ids e w).found ≡ has_news (get_peer w id)
unfolding dispatch_front leave_queue
dispatch_front-found id ids e w =
    dispatch_for-found (get_peer w id).state e
      (leave_queue (focus (record w { host = record (w.host) { dispatch_queue = ids } }) id))

-- A round without an event changes no news.
dispatch_front-news :
    (id : ℕ) (ids rest : List ℕ) (e : Event) (w : World)
    → has_news (get_peer w id) ≡ false
    → any_news (dispatch_front id ids e w).world rest ≡ any_news w rest
unfolding dispatch_front leave_queue
dispatch_front-news id ids rest e w h =
    let c = leave_queue (focus (record w { host = record (w.host) { dispatch_queue = ids } }) id) in
    any_news-set (dispatch_front id ids e w).world w id (dispatch_for c.peer.state e c).conn.peer
      rest refl (ap (λ d. has_news (d.conn.peer)) (dispatch_for-no_news c.peer.state e c h))

found-or :
    (t : Bool) (a b : Checkup) (x y : Bool)
    → t ≡ x
    → a.found ≡ t
    → (x ≡ false → b.found ≡ y)
    → (if t then a else b).found ≡ (x || y)
found-or true a b x y e f g = f ∙ ap (λ z. z || y) e
found-or false a b x y e f g = g (sym e) ∙ ap (λ z. z || y) e

dispatch_events-found :
    (ids : List ℕ) (e : Event) (w : World) → (dispatch_events ids e w).found ≡ any_news w ids
unfolding dispatch_events
dispatch_events-found [] e w = refl
dispatch_events-found (id ∷ ids) e w =
    let k = dispatch_front id ids e w in
    found-or k.found k (dispatch_events ids k.event k.world) (has_news (get_peer w id))
      (any_news w ids) (dispatch_front-found id ids e w) refl
      (λ h. dispatch_events-found ids k.event k.world ∙ dispatch_front-news id ids ids e w h)

-- The dispatch of events gives the user an event if and only if some peer in the dispatch queue has
-- news: a connection that has just been made or has ended, or a delivered packet of a connected peer;
-- so no such peer waits in vain behind peers that have nothing to tell.
pub dispatch_incoming_commands-found :
    (e : Event) (w : World)
    → (dispatch_incoming_commands e w).found ≡ any_news w w.host.dispatch_queue
unfolding dispatch_incoming_commands
dispatch_incoming_commands-found e w = dispatch_events-found w.host.dispatch_queue e w
