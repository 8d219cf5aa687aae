-- ===== src/Transmit/Outgoing/Windows.antt =====
-- The reliable windows of a channel when a command is sent for the first time, under
-- `enet_protocol_check_outgoing_commands` of original/protocol.c.
use enet_rs.Prelude.{
  ℕ, ◌+◌, ◌<◌, ◌≡◌, ap, sym, ◌∙◌, true, List, length, get_or, set, ltb, ◌==◌, if◌then◌else◌, u16,
  test_bit-set_bit, length-set, get_or-set_self, get_or-set_ne, Bool-cases, inl, inr, arith,
}
use enet_rs.State.{OutgoingCommand, Channel}
use enet_rs.Handle.Acknowledge.Windows.{HasWindows}
use enet_rs.Transmit.Outgoing.{enter_window, window_index}

raised_count :
    (ws : List ℕ) (k w : ℕ)
    → k < length ws
    → get_or ws k 0 < 65535
    → ltb 0 (get_or (set ws k (u16 (get_or ws k 0 + 1))) w 0)
      ≡ (if k == w then true else ltb 0 (get_or ws w 0))
raised_count ws k w h l = elim (Bool-cases (k == w)) [
  | inl e ↦
      let e' : k ≡ w = ground arith in
      rw e (
        ap (λ x. ltb 0 (get_or (set ws k (u16 (get_or ws k 0 + 1))) x 0)) (sym e')
        ∙ ap (ltb 0) (get_or-set_self ws k _ 0 h)
        ∙ ground arith)
  | inr n ↦ rw n (ap (ltb 0) (get_or-set_ne ws k w _ 0 (ground arith)))
]

-- Where a channel has its 16 windows and the bit of a window is set just if commands are in flight in
-- it, this stays so when a further command with a 16-bit number is sent for the first time, if there
-- are fewer than 65535 commands in flight in its window.
pub enter_window-HasWindows :
    (o : OutgoingCommand) (ch : Channel)
    → o.reliable_sequence_number < 65536
    → get_or ch.reliable_windows (window_index o) 0 < 65535
    → HasWindows ch
    → HasWindows (enter_window (window_index o) ch)
unfolding enter_window
enter_window-HasWindows o ch h few w = record {
  all_there = length-set ch.reliable_windows _ _ ∙ w.all_there;
  bits = λ k.
      test_bit-set_bit ch.used_reliable_windows (window_index o) k
      ∙ ap (λ b. if window_index o == k then true else b) (w.bits k)
      ∙ sym (raised_count ch.reliable_windows (window_index o) k (omega (arith, w.all_there)) few);
}
