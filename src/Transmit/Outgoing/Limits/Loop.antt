-- ===== src/Transmit/Outgoing/Limits/Loop.antt =====
-- The loop of `enet_protocol_check_outgoing_commands` of original/protocol.c keeps the datagram within
-- its limits.
use enet_rs.Prelude.{
  ℕ, zero, suc, ◌<◌, ◌≡◌, refl, ◌∙◌, inl, inr, true, false, ◌&&◌, Option, none, some, List, [], ◌∷◌,
  ◌++◌, Bool-cases, ltb, ◌==◌,
}
use enet_rs.Time.{time_less}
use enet_rs.State.{OutgoingCommand}
use enet_rs.Peer.Outgoing.{has_packet, get_channel}
use enet_rs.Transmit.Outgoing.{
  Sending, Origin, mixed_queue, reliable_queue, keep, skip_reliable, is_window_blocked,
  exceeds_window, does_not_fit, add_to_datagram, launch_reliable, drop_packet, release_later,
  count_throttle, send_unreliable_command, put_command, put_reliable, consider, next_command, tail,
  advance, after_next, send_loop,
}
use enet_rs.Transmit.Outgoing.Limits.{
  AllFit, IsGood, IsGood-if, IsGood-if₂, IsGood-of, same-IsWithin, keep-IsGood,
  skip_reliable-IsGood, launch-mtu, drop_packet-IsGood, add_to_datagram-IsGood, does_not_fit-same,
  FitsWord, fits_first,
}

launch_reliable-IsGood :
    (mtu : ℕ) (o : OutgoingCommand) (s : Sending) → IsGood mtu s → IsGood mtu (launch_reliable o s)
unfolding launch_reliable
launch_reliable-IsGood mtu o s n =
    IsGood-of mtu _ s (same-IsWithin mtu _ s.host refl refl refl n.within)
      (launch-mtu o s.host.service_time s.peer) refl n.reliable_queue n

send_reliable-IsGood :
    (mtu : ℕ) (o : OutgoingCommand) (s : Sending)
    → mtu < 65536
    → FitsWord o
    → does_not_fit o s.host s.peer ≡ false
    → IsGood mtu s
    → IsGood mtu (add_to_datagram o (launch_reliable o s))
unfolding launch_reliable
send_reliable-IsGood mtu o s small f d n =
    add_to_datagram-IsGood mtu o (launch_reliable o s) small f
      (does_not_fit-same o _ s.host _ s.peer refl refl refl
          (launch-mtu o s.host.service_time s.peer)
        ∙ d)
      (launch_reliable-IsGood mtu o s n)

release_later-IsGood :
    (mtu : ℕ) (o : OutgoingCommand) (s : Sending)
    → mtu < 65536
    → FitsWord o
    → does_not_fit o s.host s.peer ≡ false
    → IsGood mtu s
    → IsGood mtu (release_later o s)
unfolding release_later
release_later-IsGood mtu o s small f d n =
    let listed : Sending = record s { unreliable = s.unreliable ++ (o ∷ []) } in
    elim (Bool-cases (has_packet o.packet)) [
      | inl e ↦ rw e (
          add_to_datagram-IsGood mtu o listed small f d
            (IsGood-of mtu listed s n.within refl refl n.reliable_queue n))
      | inr e ↦ rw e (add_to_datagram-IsGood mtu o s small f d n)
    ]

send_unreliable_command-IsGood :
    (mtu : ℕ) (o : OutgoingCommand) (s : Sending)
    → mtu < 65536
    → FitsWord o
    → does_not_fit o s.host s.peer ≡ false
    → IsGood mtu s
    → IsGood mtu (send_unreliable_command o s)
unfolding send_unreliable_command count_throttle
send_unreliable_command-IsGood mtu o s small f d n =
    let counted : Sending = record s { peer = count_throttle s.peer } in
    let n' = IsGood-of mtu counted s n.within refl refl n.reliable_queue n in
    let d' = does_not_fit-same o counted.host s.host counted.peer s.peer refl refl refl refl ∙ d in
    IsGood-if (has_packet o.packet && o.fragment_offset == 0) mtu _ (release_later o s)
      (IsGood-if (ltb s.peer.packet_throttle counted.peer.packet_throttle_counter) mtu
        (drop_packet o counted) (release_later o counted) (drop_packet-IsGood mtu o counted n')
        (release_later-IsGood mtu o counted small f d' n'))
      (release_later-IsGood mtu o s small f d n)

put_command-IsGood :
    (mtu : ℕ) (g : Origin) (o : OutgoingCommand) (s : Sending)
    → mtu < 65536
    → FitsWord o
    → IsGood mtu s
    → IsGood mtu (put_command g o s).0
unfolding put_command
put_command-IsGood mtu g o s small f n =
    let full : Sending = record s { peer = record (s.peer) { continue_sending = true } } in
    elim (Bool-cases (does_not_fit o s.host s.peer)) [
      | inl d ↦
          rw d
            (keep-IsGood mtu g o full (IsGood-of mtu full s n.within refl refl n.reliable_queue n))
      | inr d ↦ rw d (
          IsGood-if₂ o.command.flag_acknowledge mtu (add_to_datagram o (launch_reliable o s), true)
            (send_unreliable_command o s, true) (send_reliable-IsGood mtu o s small f d n)
            (send_unreliable_command-IsGood mtu o s small f d n))
    ]

put_reliable-IsGood :
    (mtu : ℕ) (g : Origin) (o : OutgoingCommand) (s : Sending)
    → mtu < 65536
    → FitsWord o
    → IsGood mtu s
    → IsGood mtu (put_reliable g o s).0
unfolding put_reliable
put_reliable-IsGood mtu g o s small f n =
    let has_channel = ltb o.command.channel_id s.peer.channel_count in
    let wrapped : Sending = record s { window_wrap = true } in
    let busy : Sending = record s { can_ping = false } in
    let kept = keep-IsGood mtu g o s n in
    IsGood-if₂ (has_channel && s.window_wrap) mtu (keep g o s, true) _ kept
      (IsGood-if₂ (has_channel && is_window_blocked o (get_channel s.peer o.command.channel_id)) mtu
        (skip_reliable (keep g o wrapped), true) _
        (skip_reliable-IsGood mtu (keep g o wrapped) (
          keep-IsGood mtu g o wrapped
            (IsGood-of mtu wrapped s n.within refl refl n.reliable_queue n)))
        (IsGood-if₂ (exceeds_window o s.peer) mtu (skip_reliable (keep g o s), true)
          (put_command g o busy) (skip_reliable-IsGood mtu (keep g o s) kept)
          (put_command-IsGood mtu g o busy small f
            (IsGood-of mtu busy s n.within refl refl n.reliable_queue n))))

consider-IsGood :
    (mtu : ℕ) (g : Origin) (o : OutgoingCommand) (s : Sending)
    → mtu < 65536
    → FitsWord o
    → IsGood mtu s
    → IsGood mtu (consider g o s).0
unfolding consider
consider-IsGood mtu g o s small f n =
    IsGood-if₂ o.command.flag_acknowledge mtu (put_reliable g o s) (put_command g o s)
      (put_reliable-IsGood mtu g o s small f n) (put_command-IsGood mtu g o s small f n)

-- The next command, if there is one, fits.
data NextFits : Option (Origin × OutgoingCommand) → Type 0 where
  no_next : NextFits none
  next_fits : (g : Origin) (o : OutgoingCommand) → FitsWord o → NextFits (some (g, o))

next_command-NextFits :
    (os rs : List OutgoingCommand) → AllFit os → AllFit rs → NextFits (next_command os rs)
unfolding next_command
next_command-NextFits [] [] a b = no_next
next_command-NextFits (o ∷ os) [] (fits_first _ _ f fs) b = next_fits mixed_queue o f
next_command-NextFits [] (r ∷ rs) a (fits_first _ _ f fs) = next_fits reliable_queue r f
next_command-NextFits (o ∷ os) (r ∷ rs) (fits_first _ _ f fs) (fits_first _ _ h hs) =
    elim (Bool-cases (time_less r.queue_time o.queue_time)) [
      | inl e ↦ rw e (next_fits reliable_queue r h)
      | inr e ↦ rw e (next_fits mixed_queue o f)
    ]

tail-AllFit : (os : List OutgoingCommand) → AllFit os → AllFit (tail os)
tail-AllFit [] a = a
tail-AllFit (o ∷ os) (fits_first _ _ f fs) = fs

advance-IsGood : (mtu : ℕ) (g : Origin) (s : Sending) → IsGood mtu s → IsGood mtu (advance g s)
unfolding advance
advance-IsGood mtu mixed_queue s n = record {
  within = n.within;
  same_mtu = n.same_mtu;
  queue = tail-AllFit s.outgoing n.queue;
  reliable_queue = n.reliable_queue;
}
advance-IsGood mtu reliable_queue s n =
    IsGood-of mtu _ s n.within refl refl (tail-AllFit s.reliable n.reliable_queue) n

after_next-IsGood :
    (mtu : ℕ) (go_on : Sending → Sending) (next : Option (Origin × OutgoingCommand)) (s : Sending)
    → mtu < 65536
    → ((t : Sending) → IsGood mtu t → IsGood mtu (go_on t))
    → NextFits next
    → IsGood mtu s
    → IsGood mtu (after_next go_on next s)
after_next-IsGood mtu go_on none s small keeps f n = n
after_next-IsGood mtu go_on (some (g, o)) s small keeps (next_fits _ _ f) n =
    let r = consider g o (advance g s) in
    let n' = consider-IsGood mtu g o (advance g s) small f (advance-IsGood mtu g s n) in
    IsGood-if r.1 mtu (go_on r.0) r.0 (keeps r.0 n') n'

pub send_loop-IsGood :
    (mtu fuel : ℕ) (s : Sending) → mtu < 65536 → IsGood mtu s → IsGood mtu (send_loop fuel s)
unfolding send_loop
send_loop-IsGood mtu zero s small n = n
send_loop-IsGood mtu (suc fuel) s small n =
    after_next-IsGood mtu (send_loop fuel) (next_command s.outgoing s.reliable) s small
      (λ t m. send_loop-IsGood mtu fuel t small m)
      (next_command-NextFits s.outgoing s.reliable n.queue n.reliable_queue) n
