-- ===== src/Handle/Commands/Fuel.antt =====
-- The loop of `enet_protocol_handle_incoming_commands` of original/protocol.c ends.
use enet_rs.Prelude.{
  ℕ, zero, suc, ◌<◌, ◌≤◌, ◌≡◌, refl, ap, sym, Option, none, some, List, length, drop, length-drop,
  ltb, if◌then◌else◌, Bool-cases, inl, inr, arith,
}
use enet_rs.Protocol.{
  Protocol, Body, command_size, acknowledge, connect, verify_connect, disconnect, ping,
  send_reliable, send_unreliable, send_fragment, send_unsequenced, bandwidth_limit,
  throttle_configure, send_unreliable_fragment,
}
use enet_rs.Wire.{decode, check_size}
use enet_rs.Handle.Commands.{Progress, command_step, payload_length, after_decode, run_commands}

-- What is left behind the command at the front of the data is shorter than the data.
data Shortens (n : ℕ) : Option (Protocol × List ℕ) → Type 0 where
  ends : Shortens n none
  goes_on : (m : Protocol) (rest : List ℕ) → length rest < n → Shortens n (some (m, rest))

command_size-positive : (body : Body) → 0 < command_size body
unfolding command_size
command_size-positive (acknowledge n t) = omega arith
command_size-positive (connect k) = omega arith
command_size-positive (verify_connect v) = omega arith
command_size-positive (disconnect d) = omega arith
command_size-positive ping = omega arith
command_size-positive (send_reliable l) = omega arith
command_size-positive (send_unreliable n l) = omega arith
command_size-positive (send_fragment f) = omega arith
command_size-positive (send_unsequenced g l) = omega arith
command_size-positive (bandwidth_limit i o) = omega arith
command_size-positive (throttle_configure i a d) = omega arith
command_size-positive (send_unreliable_fragment f) = omega arith

check_size-Shortens :
    (bytes : List ℕ) (body : Option Body)
    → 0 < length bytes
    → Shortens (length bytes) (check_size bytes body)
check_size-Shortens bytes none h = ends
check_size-Shortens bytes (some body) h =
    elim (Bool-cases (ltb (length bytes) (command_size body))) [
      | inl e ↦ rw e ends
      | inr e ↦ rw e (
          goes_on _ _
            (omega (arith, length-drop (command_size body) bytes, command_size-positive body)))
    ]

decode-Shortens : (bytes : List ℕ) → Shortens (length bytes) (decode bytes)
unfolding decode
decode-Shortens bytes = elim (Bool-cases (ltb (length bytes) 4)) [
  | inl e ↦ rw e ends
  | inr e ↦ rw e (check_size-Shortens bytes _ (ground arith))
]

decode-empty : (bytes : List ℕ) → length bytes ≡ 0 → decode bytes ≡ none
unfolding decode
decode-empty bytes h = rw h refl

after_decode-eq :
    (go_on go_on' : List ℕ → Progress → Progress) (sent : Option ℕ) (n : ℕ)
    (d : Option (Protocol × List ℕ)) (s : Progress)
    → Shortens n d
    → ((bytes : List ℕ) (s' : Progress) → length bytes < n → go_on bytes s' ≡ go_on' bytes s')
    → after_decode go_on sent d s ≡ after_decode go_on' sent d s
after_decode-eq go_on go_on' sent n none s h e = refl
after_decode-eq go_on go_on' sent n (some (m, payload)) s (goes_on _ _ h) e =
    let step = command_step sent m payload s in
    ap (λ r. if step.1 then r else step.0)
      (e (drop (payload_length m.body) payload) step.0
        (omega (arith, length-drop (payload_length m.body) payload, h)))

run_commands-empty :
    (fuel : ℕ) (sent : Option ℕ) (bytes : List ℕ) (s : Progress)
    → length bytes ≡ 0
    → run_commands fuel sent bytes s ≡ s
unfolding run_commands
run_commands-empty zero sent bytes s h = refl
run_commands-empty (suc fuel) sent bytes s h = rw (decode-empty bytes h) refl

-- The loop over the commands of a datagram ends by itself, since each command takes up bytes: with
-- any two amounts of fuel that are at least the number of bytes, it gives the same result.
pub run_commands_enough :
    (fuel fuel' : ℕ) (sent : Option ℕ) (bytes : List ℕ) (s : Progress)
    → length bytes ≤ fuel
    → length bytes ≤ fuel'
    → run_commands fuel sent bytes s ≡ run_commands fuel' sent bytes s
unfolding run_commands
run_commands_enough zero fuel' sent bytes s h h' =
    sym (run_commands-empty fuel' sent bytes s (omega arith))
run_commands_enough (suc fuel) zero sent bytes s h h' =
    run_commands-empty (suc fuel) sent bytes s (omega arith)
run_commands_enough (suc fuel) (suc fuel') sent bytes s h h' =
    after_decode-eq (run_commands fuel sent) (run_commands fuel' sent) sent (length bytes)
      (decode bytes) s (decode-Shortens bytes)
      (λ bytes' s' l. run_commands_enough fuel fuel' sent bytes' s' (omega arith) (omega arith))
