-- ===== src/Peer/Incoming/Order.antt =====
-- The order of a channel's reliable queue under `enet_peer_queue_incoming_command` of
-- original/peer.c.
use enet_rs.Prelude.{
  ℕ, zero, suc, ◌+◌, ◌-◌, ◌%◌, ◌<◌, ◌≤◌, ◌≡◌, refl, List, [], ◌∷◌, ◌++◌, Bool, true, false, ltb,
  leb, take, drop, if◌then◌else◌, arith,
}
use enet_rs.State.{IncomingCommand}
use enet_rs.Peer.Incoming.{Place, duplicate, before_last, reliable_place}

-- How far a 16-bit sequence number lies ahead of the channel's, around the wrap.
abbrev pub ahead : ℕ → ℕ → ℕ
ahead current number = (number + (65536 - current)) % 65536

-- All commands of a list carry 16-bit numbers less far ahead than a given distance.
pub data AllBelow (current distance : ℕ) : List IncomingCommand → Type 0 where
  none_left : AllBelow current distance []
  below :
      (i : IncomingCommand) (is : List IncomingCommand)
      → i.reliable_sequence_number < 65536
      → ahead current i.reliable_sequence_number < distance
      → AllBelow current distance is
      → AllBelow current distance (i ∷ is)

-- A queue, its end first, is in order: the further back, the further ahead its number lies.
pub data IsDescending (current : ℕ) : List IncomingCommand → Type 0 where
  sorted_empty : IsDescending current []
  sorted :
      (i : IncomingCommand) (is : List IncomingCommand)
      → i.reliable_sequence_number < 65536
      → AllBelow current (ahead current i.reliable_sequence_number) is
      → IsDescending current is
      → IsDescending current (i ∷ is)

-- What the search has found: the number is in the queue; or it is not, and the commands that it went
-- past lie further ahead and those left less far.
pub data IsPlaced (current number : ℕ) : List IncomingCommand → ℕ → Place → Type 0 where
  is_there :
      (i : IncomingCommand) (is : List IncomingCommand) (skipped : ℕ)
      → i.reliable_sequence_number ≡ number
      → IsPlaced current number (i ∷ is) skipped duplicate
  goes_here :
      (is : List IncomingCommand) (skipped : ℕ)
      → AllBelow current (ahead current number) is
      → IsPlaced current number is skipped (before_last skipped)
  goes_past :
      (i : IncomingCommand) (is : List IncomingCommand) (skipped : ℕ) (place : Place)
      → ahead current number < ahead current i.reliable_sequence_number
      → IsPlaced current number is (skipped + 1) place
      → IsPlaced current number (i ∷ is) skipped place

IsPlaced-if :
    (current number skipped : ℕ) (is : List IncomingCommand) (t : Bool) (p q : Place)
    → (t ≡ true → IsPlaced current number is skipped p)
    → (t ≡ false → IsPlaced current number is skipped q)
    → IsPlaced current number is skipped (if t then p else q)
IsPlaced-if current number skipped is true p q f g = f refl
IsPlaced-if current number skipped is false p q f g = g refl

AllBelow-trans :
    (current d e : ℕ) (is : List IncomingCommand)
    → d ≤ e
    → AllBelow current d is
    → AllBelow current e is
AllBelow-trans current d e [] h none_left = none_left
AllBelow-trans current d e (i ∷ is) h (below _ _ b a r) =
    below i is b (omega arith) (AllBelow-trans current d e is h r)

-- One step of the search, for the place `on` that it finds further on.
search_step :
    (number current : ℕ) (i : IncomingCommand) (is : List IncomingCommand) (skipped : ℕ)
    (on : Place)
    → number < 65536
    → current < 65536
    → i.reliable_sequence_number < 65536
    → AllBelow current (ahead current i.reliable_sequence_number) is
    → IsPlaced current number is (skipped + 1) on
    → IsPlaced current number (i ∷ is) skipped (
        let compare_numbers =
          if leb i.reliable_sequence_number number
          then (if ltb i.reliable_sequence_number number then before_last skipped else duplicate)
          else on in
        if leb current number
        then (if ltb i.reliable_sequence_number current then on else compare_numbers)
        else (if leb current i.reliable_sequence_number
            then before_last skipped
            else compare_numbers))
search_step number current i is skipped on h k b a r =
    IsPlaced-if current number skipped (i ∷ is) (leb current number) _ _
      (λ e.
        IsPlaced-if current number skipped (i ∷ is) (ltb i.reliable_sequence_number current) _ _
          (λ f. past (ground arith)) (λ f. compare (λ x. ground arith) (λ x. ground arith)))
      (λ e.
        IsPlaced-if current number skipped (i ∷ is) (leb current i.reliable_sequence_number) _ _
          (λ f. stop (ground arith)) (λ f. compare (λ x. ground arith) (λ x. ground arith)))
  where
    past :
        ahead current number < ahead current i.reliable_sequence_number
        → IsPlaced current number (i ∷ is) skipped on
    past l = goes_past i is skipped on l r

    stop :
        ahead current i.reliable_sequence_number < ahead current number
        → IsPlaced current number (i ∷ is) skipped (before_last skipped)
    stop l =
        goes_here (i ∷ is) skipped (below i is b l (AllBelow-trans current _ _ is (omega arith) a))

    compare :
        (i.reliable_sequence_number < number
          → ahead current i.reliable_sequence_number < ahead current number)
        → (number < i.reliable_sequence_number
            → ahead current number < ahead current i.reliable_sequence_number)
        → IsPlaced current number (i ∷ is) skipped (
            if leb i.reliable_sequence_number number
            then (if ltb i.reliable_sequence_number number then before_last skipped else duplicate)
            else on)
    compare l g =
        IsPlaced-if current number skipped (i ∷ is) (leb i.reliable_sequence_number number) _ _
          (λ e.
            IsPlaced-if current number skipped (i ∷ is) (ltb i.reliable_sequence_number number) _ _
              (λ f. stop (l (ground arith))) (λ f. is_there i is skipped (ground arith)))
          (λ e. past (g (ground arith)))

-- The search in a queue that is in order, its end first, ends at the number's place by distance ahead
-- of the channel's number, also where the numbers wrap: it reports a duplicate only where the number
-- is in the queue, and else a place with all commands further ahead on one side and all commands
-- less far ahead on the other.
pub reliable_place-IsPlaced :
    (number current : ℕ) (queue : List IncomingCommand) (skipped : ℕ)
    → number < 65536
    → current < 65536
    → IsDescending current queue
    → IsPlaced current number queue skipped (reliable_place number current queue skipped)
unfolding reliable_place
reliable_place-IsPlaced number current [] skipped h k sorted_empty = goes_here [] skipped none_left
reliable_place-IsPlaced number current (i ∷ is) skipped h k (sorted _ _ b a r) =
    search_step number current i is skipped _ h k b a
      (reliable_place-IsPlaced number current is (skipped + 1) h k r)

-- The queue, its end first, with a command put in at the place that the search found, `skipped`
-- commands before its start being left out of the list.
abbrev pub inserted : ℕ → IncomingCommand → Place → List IncomingCommand → List IncomingCommand
inserted skipped x duplicate queue = queue
inserted skipped x (before_last k) queue =
    take (k - skipped) queue ++ (x ∷ drop (k - skipped) queue)

AllBelow-inserted :
    (current distance k : ℕ) (x : IncomingCommand) (is : List IncomingCommand)
    → x.reliable_sequence_number < 65536
    → ahead current x.reliable_sequence_number < distance
    → AllBelow current distance is
    → AllBelow current distance (take k is ++ (x ∷ drop k is))
AllBelow-inserted current distance zero x is b h a = below x is b h a
AllBelow-inserted current distance (suc k) x [] b h none_left = below x [] b h none_left
AllBelow-inserted current distance (suc k) x (i ∷ is) b h (below _ _ c l r) =
    below i _ c l (AllBelow-inserted current distance k x is b h r)

AtLeast : ℕ → Place → Type 0
AtLeast n duplicate = n ≤ n
AtLeast n (before_last k) = n ≤ k

AtLeast-step : (n : ℕ) (p : Place) → AtLeast (n + 1) p → AtLeast n p
unfolding AtLeast
AtLeast-step n duplicate h = omega arith
AtLeast-step n (before_last k) h = omega arith

place-AtLeast :
    (current number skipped : ℕ) (is : List IncomingCommand) (p : Place)
    → IsPlaced current number is skipped p
    → AtLeast skipped p
unfolding AtLeast
place-AtLeast current number skipped _ _ (is_there i is _ e) = omega arith
place-AtLeast current number skipped _ _ (goes_here is _ a) = omega arith
place-AtLeast current number skipped _ _ (goes_past i is _ p l r) =
    AtLeast-step skipped p (place-AtLeast current number (skipped + 1) is p r)

inserted-past :
    (current skipped : ℕ) (x i : IncomingCommand) (is : List IncomingCommand) (p : Place)
    → x.reliable_sequence_number < 65536
    → i.reliable_sequence_number < 65536
    → ahead current x.reliable_sequence_number < ahead current i.reliable_sequence_number
    → AllBelow current (ahead current i.reliable_sequence_number) is
    → AtLeast (skipped + 1) p
    → IsDescending current is
    → IsDescending current (inserted (skipped + 1) x p is)
    → IsDescending current (inserted skipped x p (i ∷ is))
unfolding AtLeast
inserted-past current skipped x i is duplicate bx bi l a h r d = sorted i is bi a r
inserted-past current skipped x i is (before_last k) bx bi l a h r d =
    let q : k - skipped ≡ suc (k - (skipped + 1)) = omega arith in
    rw q (sorted i _ bi (AllBelow-inserted current _ (k - (skipped + 1)) x is bx l a) d)

inserted-IsDescending :
    (current : ℕ) (x : IncomingCommand) (skipped : ℕ) (queue : List IncomingCommand) (p : Place)
    → x.reliable_sequence_number < 65536
    → IsPlaced current x.reliable_sequence_number queue skipped p
    → IsDescending current queue
    → IsDescending current (inserted skipped x p queue)
inserted-IsDescending current x skipped _ _ b (is_there i is _ e) d = d
inserted-IsDescending current x skipped _ _ b (goes_here is _ a) d =
    let q : skipped - skipped ≡ 0 = omega arith in rw q (sorted x is b a d)
inserted-IsDescending current x skipped _ _ b (goes_past i is _ p l r) (sorted _ _ bi a d) =
    inserted-past current skipped x i is p b bi l a (place-AtLeast current _ (skipped + 1) is p r) d
      (inserted-IsDescending current x (skipped + 1) is p b r d)

-- A reliable queue that is in order stays in order when a command with a 16-bit number is put in at
-- the place that the search finds, or is left as it is where the search reports a duplicate.
pub reliable_place-IsDescending :
    (current : ℕ) (x : IncomingCommand) (queue : List IncomingCommand)
    → x.reliable_sequence_number < 65536
    → current < 65536
    → IsDescending current queue
    → IsDescending current
        (inserted 0 x (reliable_place x.reliable_sequence_number current queue 0) queue)
reliable_place-IsDescending current x queue b k d =
    inserted-IsDescending current x 0 queue _ b
      (reliable_place-IsPlaced x.reliable_sequence_number current queue 0 b k d) d
