-- ===== src/Handle/Acknowledge/Windows.antt =====
-- The reliable windows of a channel, under `enet_protocol_remove_sent_reliable_command` of
-- original/protocol.c.
use enet_rs.Prelude.{
  ℕ, ◌-◌, ◌/◌, ◌<◌, ◌≡◌, refl, ap, sym, ◌∙◌, false, not, List, length, get_or, set, ltb, ◌==◌,
  if◌then◌else◌, test_bit, clear_bit, test_bit-clear_bit, length-set, get_or-set_self,
  get_or-set_ne, Bool-cases, inl, inr, arith,
}
use enet_rs.State.{Channel, reliable_window_size, reliable_windows_count}
use enet_rs.Handle.Acknowledge.{leave_window}

-- There are 16 windows, and the bit of a window is set just if commands are in flight in it.
pub record HasWindows (ch : Channel) : Type 0 where
  pub all_there : length ch.reliable_windows ≡ reliable_windows_count
  pub bits : (w : ℕ) → test_bit ch.used_reliable_windows w ≡ ltb 0 (get_or ch.reliable_windows w 0)

lower_count :
    (ws : List ℕ) (k w : ℕ)
    → k < length ws
    → 0 < get_or ws k 0
    → ltb 0 (get_or (set ws k (get_or ws k 0 - 1)) w 0)
      ≡ (if k == w then not (get_or ws k 0 - 1 == 0) else ltb 0 (get_or ws w 0))
lower_count ws k w h l = elim (Bool-cases (k == w)) [
  | inl e ↦
      let e' : k ≡ w = ground arith in
      rw e (
        ap (λ x. ltb 0 (get_or (set ws k (get_or ws k 0 - 1)) x 0)) (sym e')
        ∙ ap (ltb 0) (get_or-set_self ws k _ 0 h)
        ∙ ground arith)
  | inr n ↦ rw n (ap (ltb 0) (get_or-set_ne ws k w _ 0 (ground arith)))
]

bits_kept :
    (used : ℕ) (ws : List ℕ) (k w : ℕ)
    → k < length ws
    → 0 < get_or ws k 0
    → test_bit used w ≡ ltb 0 (get_or ws w 0)
    → test_bit (if get_or ws k 0 - 1 == 0 then clear_bit used k else used) w
      ≡ ltb 0 (get_or (set ws k (get_or ws k 0 - 1)) w 0)
bits_kept used ws k w h l b = cleared ∙ choose ∙ sym (lower_count ws k w h l)
  where
    cleared : test_bit (if get_or ws k 0 - 1 == 0 then clear_bit used k else used) w ≡ (
        if get_or ws k 0 - 1 == 0
        then (if k == w then false else test_bit used w)
        else test_bit used w)
    cleared = elim (Bool-cases (get_or ws k 0 - 1 == 0)) [
      | inl e ↦ rw e (test_bit-clear_bit used k w)
      | inr e ↦ rw e refl
    ]

    same_count : k ≡ w → get_or ws k 0 ≡ get_or ws w 0
    same_count e = ap (λ x. get_or ws x 0) e

    choose :
        (if get_or ws k 0 - 1 == 0
          then (if k == w then false else test_bit used w)
          else test_bit used w)
        ≡ (if k == w then not (get_or ws k 0 - 1 == 0) else ltb 0 (get_or ws w 0))
    choose = elim (Bool-cases (k == w)) [
      | inr e ↦ rw e (ground arith)
      | inl e ↦
          let q : get_or ws k 0 ≡ get_or ws w 0 = same_count (ground arith) in rw e (ground arith)
    ]

-- Where a channel has its 16 windows and the bit of a window is set just if commands are in flight in
-- it, this stays so when a command with any 16-bit number is acknowledged, also one whose window is
-- empty.
pub leave_window-HasWindows :
    (number : ℕ) (ch : Channel)
    → number < 65536
    → HasWindows ch
    → HasWindows (leave_window number ch)
unfolding leave_window
leave_window-HasWindows number ch h w =
    elim (Bool-cases (ltb 0 (get_or ch.reliable_windows (number / reliable_window_size) 0))) [
      | inr e ↦ rw e w
      | inl e ↦ rw e (record {
        all_there = length-set ch.reliable_windows _ _ ∙ w.all_there;
        bits = λ k.
            bits_kept ch.used_reliable_windows ch.reliable_windows _ k (omega (arith, w.all_there))
              (ground arith) (w.bits k);
      })
    ]
