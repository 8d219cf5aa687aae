-- ===== src/Peer/Dispatch/InOrder.antt =====
-- What `enet_peer_dispatch_incoming_reliable_commands` of original/peer.c takes from a queue.
use enet_rs.Prelude.{
  ℕ, ◌+◌, ◌-◌, ◌<◌, ◌≡◌, ◌≢◌, ◌⊎◌, inl, inr, refl, ap, List, [], ◌∷◌, ◌++◌, Bool, true, false, not,
  ◌||◌, Bool-cases, ltb, ◌==◌, if◌then◌else◌, u16, arith,
}
use enet_rs.State.{IncomingCommand}
use enet_rs.Peer.Dispatch.{take_in_order}

-- The last sequence number that a command takes up: of a fragmented one, that of its last fragment.
abbrev pub last_number : IncomingCommand → ℕ
last_number i =
    if ltb 0 i.fragment_count
    then u16 (i.reliable_sequence_number + (i.fragment_count - 1))
    else i.reliable_sequence_number

-- A command is complete and carries the number after `number`.
pub record IsNext (number : ℕ) (i : IncomingCommand) : Type 0 where
  pub complete : i.fragments_remaining ≡ 0
  pub numbered : i.reliable_sequence_number ≡ u16 (number + 1)

-- Complete commands without a gap, each with the number after the last one of the command before it.
pub data IsInOrder : ℕ → List IncomingCommand → ℕ → Type 0 where
  done : (number : ℕ) → IsInOrder number [] number
  next :
      (number last : ℕ) (i : IncomingCommand) (is : List IncomingCommand)
      → IsNext number i
      → IsInOrder (last_number i) is last
      → IsInOrder number (i ∷ is) last

-- A queue that starts with no command that is next.
pub data IsBlocked (number : ℕ) : List IncomingCommand → Type 0 where
  empty : IsBlocked number []
  waits :
      (i : IncomingCommand) (is : List IncomingCommand)
      → (0 < i.fragments_remaining) ⊎ (i.reliable_sequence_number ≢ u16 (number + 1))
      → IsBlocked number (i ∷ is)

-- A queue is cut in two: the part that is delivered and the part that stays.
abbrev pub Cut : ℕ → List IncomingCommand → List IncomingCommand × List IncomingCommand × ℕ → Type 0
Cut number queue (taken, rest, last) =
    (taken ++ rest ≡ queue) × IsInOrder number taken last × IsBlocked last rest

Cut-if :
    (number : ℕ) (queue : List IncomingCommand) (t : Bool)
    (a b : List IncomingCommand × List IncomingCommand × ℕ)
    → (t ≡ true → Cut number queue a)
    → (t ≡ false → Cut number queue b)
    → Cut number queue (if t then a else b)
Cut-if number queue true a b p q = p refl
Cut-if number queue false a b p q = q refl

-- From a channel that has delivered up to `number`, exactly the longest front part of the queue is
-- taken in which all commands are complete and each carries the number after the last one of its
-- predecessor (around the wrap of 16 bits): the queue is cut there, nothing is lost or reordered,
-- the new number is the last one taken, and the command left at the front, if any, is not next.
pub take_in_order-Cut :
    (number : ℕ) (queue : List IncomingCommand) → Cut number queue (take_in_order number queue)
unfolding take_in_order
take_in_order-Cut number [] = (refl, done number, empty)
take_in_order-Cut number (i ∷ is) =
    let (kept, ordered, blocked) = take_in_order-Cut (last_number i) is in
    Cut-if number (i ∷ is)
      (ltb 0 i.fragments_remaining || not (i.reliable_sequence_number == u16 (number + 1)))
      ([], i ∷ is, number) _ (λ e. (refl, done number, waits i is (blocked_by e)))
      (λ e. (
        ap (◌∷◌ i) kept,
        next number _ i _ (record { complete = ground arith; numbered = ground arith }) ordered,
        blocked,
      ))
  where
    blocked_by :
        ltb 0 i.fragments_remaining || not (i.reliable_sequence_number == u16 (number + 1)) ≡ true
        → (0 < i.fragments_remaining) ⊎ (i.reliable_sequence_number ≢ u16 (number + 1))
    blocked_by e = elim (Bool-cases (ltb 0 i.fragments_remaining)) [
      | inl a ↦ inl (ground arith)
      | inr a ↦ inr (λ q. ground arith)
    ]
