-- ===== src/Standing/Loop.antt =====
-- The loop over the commands of a datagram keeps the host's counters, and its peer in the array.
use enet_rs.Prelude.{
  ℕ, zero, suc, ◌<◌, ◌≡◌, refl, subst, Bool, true, false, Option, none, some, List, length,
  length-set, arith, not, if◌then◌else◌,
}
use enet_rs.Protocol.{
  Protocol, Body, acknowledge, connect, verify_connect, disconnect, ping, send_reliable,
  send_unreliable, send_fragment, send_unsequenced, bandwidth_limit, throttle_configure,
  send_unreliable_fragment,
}
use enet_rs.Wire.{decode}
use enet_rs.State.{Conn, Status, success, failure}
use enet_rs.World.{World, focus, put_back}
use enet_rs.Peer.Outgoing.{queue_acknowledgement}
use enet_rs.Handle.Notify.{Event}
use enet_rs.Handle.Connect.{handle_connect}
use enet_rs.Handle.Commands.{
  acknowledge_command, is_acknowledged, after_decode, Progress, after_command, after_handler,
  after_connect, handle_unknown, handle_for, command_step, run_commands,
}
use enet_rs.Standing.{Balanced}
use enet_rs.Standing.Frames.{standing-path, standing-if}
use enet_rs.Standing.Moves.{Balanced-of}
use enet_rs.Standing.Commands.{handle_command-Balanced}
use enet_rs.Standing.Totals.{IsCounted, put_back-IsCounted}
use enet_rs.Standing.Connect.{there, inside_of, IsSound, handle_connect-IsSound}

acknowledge_command-Balanced :
    (k j : ℕ) (m : Protocol) (t : ℕ) (c : Conn)
    → Balanced k j c
    → Balanced k j (acknowledge_command m t c)
unfolding acknowledge_command queue_acknowledgement
acknowledge_command-Balanced k j m t c b =
    Balanced-of _ c
      (standing-if (is_acknowledged c.peer.state m.body) _ c c
        (standing-path _ c refl refl (ground arith) (ground arith)) refl)
      b

-- The state between two commands.
abbrev Sound : Progress × Bool → Type 0
Sound r = IsSound r.0.world r.0.peer

pub put_back-IsSound :
    (w : World) (id : ℕ) (c : Conn)
    → id < length w.peers
    → ((k j : ℕ) → Balanced k j (focus w id) → Balanced k j c)
    → IsCounted w
    → IsSound (put_back w id c) (some id)
put_back-IsSound w id c h keeps n = record {
  counted = put_back-IsCounted w id c h keeps n;
  present = there id (omega (arith, length-set w.peers id c.peer, h));
}

Sound-if : (t : Bool) (a b : Progress × Bool) → Sound a → Sound b → Sound (if t then a else b)
Sound-if true a b p q = p
Sound-if false a b p q = q

after_command-Sound :
    (sent : Option ℕ) (m : Protocol) (id : ℕ) (w : World) (event : Option Event)
    → id < length w.peers
    → IsCounted w
    → Sound (after_command sent m id (record { world = w; peer = some id; event = event }))
after_command-Sound none m id w event h n =
    Sound-if (not m.flag_acknowledge) _ _ (record { counted = n; present = there id h })
      (record { counted = n; present = there id h })
after_command-Sound (some time) m id w event h n =
    Sound-if (not m.flag_acknowledge) _ _ (record { counted = n; present = there id h })
      (put_back-IsSound w id _ h (λ k j b. acknowledge_command-Balanced k j m time (focus w id) b)
        n)

after_handler-Sound :
    (sent : Option ℕ) (m : Protocol) (id : ℕ) (w : World) (c : Conn) (event : Option Event)
    (s : Status)
    → IsSound (put_back w id c) (some id)
    → Sound (after_handler sent m id w (record { conn = c; event = event; status = s }))
after_handler-Sound sent m id w c event failure n = n
after_handler-Sound sent m id w c event success n =
    after_command-Sound sent m id (put_back w id c) event (inside_of n.present) n.counted

after_connect-Sound :
    (sent : Option ℕ) (m : Protocol) (event : Option Event) (r : World × Option ℕ)
    → IsSound r.0 r.1
    → Sound (after_connect sent m event r)
after_connect-Sound sent m event (w, none) n = n
after_connect-Sound sent m event (w, some id) n =
    after_command-Sound sent m id w event (inside_of n.present) n.counted

handle_unknown-Sound :
    (sent : Option ℕ) (m : Protocol) (body : Body) (s : Progress)
    → IsSound s.world s.peer
    → Sound (handle_unknown sent m body s)
handle_unknown-Sound sent m (connect x) s n =
    after_connect-Sound sent m s.event (handle_connect x s.world)
      (handle_connect-IsSound x s.world n.counted)
handle_unknown-Sound sent m (acknowledge number time) s n = n
handle_unknown-Sound sent m (verify_connect v) s n = n
handle_unknown-Sound sent m (disconnect code) s n = n
handle_unknown-Sound sent m ping s n = n
handle_unknown-Sound sent m (send_reliable len) s n = n
handle_unknown-Sound sent m (send_unreliable number len) s n = n
handle_unknown-Sound sent m (send_unsequenced group len) s n = n
handle_unknown-Sound sent m (send_fragment f) s n = n
handle_unknown-Sound sent m (bandwidth_limit incoming outgoing) s n = n
handle_unknown-Sound sent m (throttle_configure i a d) s n = n
handle_unknown-Sound sent m (send_unreliable_fragment f) s n = n

handle_for-Sound :
    (sent : Option ℕ) (m : Protocol) (payload : List ℕ) (peer : Option ℕ) (s : Progress)
    → peer ≡ s.peer
    → IsSound s.world peer
    → Sound (handle_for sent m payload peer s)
handle_for-Sound sent m payload none s e n =
    handle_unknown-Sound sent m m.body s (subst (IsSound s.world) e n)
handle_for-Sound sent m payload (some id) s e n = after_handler-Sound sent m id s.world _ _ _ (
    put_back-IsSound s.world id _ (inside_of n.present)
      (λ k j b. handle_command-Balanced k j s.event m m.body payload (focus s.world id) b)
      n.counted)

command_step-Sound :
    (sent : Option ℕ) (m : Protocol) (payload : List ℕ) (s : Progress)
    → IsSound s.world s.peer
    → Sound (command_step sent m payload s)
unfolding command_step
command_step-Sound sent m payload s n = handle_for-Sound sent m payload s.peer s refl n

pub Sound-go_on :
    (t : Bool) (a b : Progress)
    → IsSound a.world a.peer
    → IsSound b.world b.peer
    → IsSound (if t then a else b).world (if t then a else b).peer
Sound-go_on true a b p q = p
Sound-go_on false a b p q = q

after_decode-IsSound :
    (go_on : List ℕ → Progress → Progress) (sent : Option ℕ) (d : Option (Protocol × List ℕ))
    (s : Progress)
    → ((bytes : List ℕ) (s' : Progress)
        → IsSound s'.world s'.peer
        → IsSound (go_on bytes s').world (go_on bytes s').peer)
    → IsSound s.world s.peer
    → IsSound (after_decode go_on sent d s).world (after_decode go_on sent d s).peer
after_decode-IsSound go_on sent none s keeps n = n
after_decode-IsSound go_on sent (some (m, payload)) s keeps n =
    let n' = command_step-Sound sent m payload s n in
    Sound-go_on (command_step sent m payload s).1 _ _ (keeps _ _ n') n'

pub run_commands-IsSound :
    (fuel : ℕ) (sent : Option ℕ) (bytes : List ℕ) (s : Progress)
    → IsSound s.world s.peer
    → IsSound (run_commands fuel sent bytes s).world (run_commands fuel sent bytes s).peer
unfolding run_commands
run_commands-IsSound zero sent bytes s n = n
run_commands-IsSound (suc fuel) sent bytes s n =
    after_decode-IsSound (run_commands fuel sent) sent (decode bytes) s
      (λ bytes' s' n'. run_commands-IsSound fuel sent bytes' s' n') n
