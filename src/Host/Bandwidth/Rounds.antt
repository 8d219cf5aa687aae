-- ===== src/Host/Bandwidth/Rounds.antt =====
-- The loops of `enet_host_bandwidth_throttle` of original/host.c end: every round but the last settles
-- a peer.
use enet_rs.Prelude.{
  ℕ, zero, suc, ◌+◌, ◌<◌, ◌≤◌, ◌≡◌, refl, ◌∙◌, ap, ◌⊎◌, inl, inr, Bool, true, false, not, ◌&&◌,
  ◌||◌, List, [], ◌∷◌, length, if◌then◌else◌, Bool-cases, arith, ltb, ◌==◌, sub32, ◌/◌,
}
use enet_rs.State.{Peer, is_connected}
use enet_rs.Host.Bandwidth.{
  Shares, scaled, is_settled, is_satisfied, limit_throttle, limit_peer, share_throttle, front,
  limit_round, limit_rounds, keeps_share, give_up_round, give_up_rounds,
}

-- The number of peers that satisfy a test.
abbrev pub count : (Peer → Bool) → List Peer → ℕ
count f [] = 0
count f (p ∷ ps) = (if f p then 1 else 0) + count f ps

count-length : (f : Peer → Bool) (ps : List Peer) → count f ps ≤ length ps
count-length f [] = omega arith
count-length f (p ∷ ps) = let h = count-length f ps in ground arith

abbrev is_unsettled : ℕ → Peer → Bool
is_unsettled now p = not (is_settled now p)

-- A round leaves everything as it was, or there are fewer peers left.
abbrev Advances : (Peer → Bool) → List Peer → Bool → Shares → Type 0
Advances f ps adjusted r =
    ((r.needs_adjustment ≡ adjusted) × (count f r.peers ≡ count f ps))
    ⊎ (count f r.peers < count f ps)

Advances-if :
    (t : Bool) (f : Peer → Bool) (ps : List Peer) (adjusted : Bool) (a b : Shares)
    → (t ≡ true → Advances f ps adjusted a)
    → (t ≡ false → Advances f ps adjusted b)
    → Advances f ps adjusted (if t then a else b)
Advances-if true f ps adjusted a b p q = p refl
Advances-if false f ps adjusted a b p q = q refl

Advances-front :
    (f : Peer → Bool) (p : Peer) (ps : List Peer) (adjusted : Bool) (r : Shares)
    → Advances f ps adjusted r
    → Advances f (p ∷ ps) adjusted (front p r)
Advances-front f p ps adjusted r (inl (a, b)) = inl (a, omega (arith, b))
Advances-front f p ps adjusted r (inr a) = inr (omega (arith, a))

-- A peer is settled, and the rest is no worse.
Advances-settle :
    (f : Peer → Bool) (p q : Peer) (ps : List Peer) (adjusted other : Bool) (r : Shares)
    → f p ≡ true
    → f q ≡ false
    → Advances f ps other r
    → Advances f (p ∷ ps) adjusted (front q r)
Advances-settle f p q ps adjusted other r a b (inl (c, d)) = inr (ground arith)
Advances-settle f p q ps adjusted other r a b (inr c) = inr (ground arith)

limit_peer-settled :
    (now elapsed : ℕ) (p : Peer) → is_unsettled now (limit_peer now elapsed p) ≡ false
unfolding limit_peer limit_throttle is_settled
limit_peer-settled now elapsed p = ground arith

limit_round-Advances :
    (now elapsed throttle : ℕ) (ps : List Peer) (s : Shares)
    → Advances (is_unsettled now) ps s.needs_adjustment (limit_round now elapsed throttle ps s)
unfolding limit_round
limit_round-Advances now elapsed throttle [] s = inl (refl, refl)
limit_round-Advances now elapsed throttle (p ∷ ps) s =
    let s' : Shares = record s {
      peers_remaining = sub32 s.peers_remaining 1;
      bandwidth = sub32 s.bandwidth (scaled p.incoming_bandwidth elapsed);
      data_total = sub32 s.data_total (scaled p.incoming_bandwidth elapsed);
      needs_adjustment = true;
    } in
    Advances-if (is_settled now p || is_satisfied elapsed throttle p) (is_unsettled now) (p ∷ ps)
      s.needs_adjustment (front p (limit_round now elapsed throttle ps s))
      (front (limit_peer now elapsed p) (limit_round now elapsed throttle ps s'))
      (λ _.
        Advances-front (is_unsettled now) p ps s.needs_adjustment
          (limit_round now elapsed throttle ps s) (limit_round-Advances now elapsed throttle ps s))
      (λ e.
        Advances-settle (is_unsettled now) p (limit_peer now elapsed p) ps s.needs_adjustment true
          (limit_round now elapsed throttle ps s') (ground (arith, e))
          (limit_peer-settled now elapsed p) (limit_round-Advances now elapsed throttle ps s'))

-- What the fuel has to be: the loop is over, or every peer that is left may have its round.
abbrev Enough : (Peer → Bool) → ℕ → Shares → Type 0
Enough f fuel s = (s.needs_adjustment ≡ false) ⊎ (count f s.peers < fuel)

Enough-next :
    (f : Peer → Bool) (fuel : ℕ) (s r : Shares)
    → s.needs_adjustment ≡ true
    → Enough f (suc fuel) s
    → Advances f s.peers false r
    → Enough f fuel r
Enough-next f fuel s r e (inl h) a = absurd (cc (e, h))
Enough-next f fuel s r e (inr h) (inl (a, b)) = inl a
Enough-next f fuel s r e (inr h) (inr a) = inr (omega (arith, a, h))

if-same {ℓ} :
    {A : Type ℓ} (t : Bool) (a b c : A)
    → (t ≡ true → a ≡ b)
    → (if t then a else c) ≡ (if t then b else c)
if-same true a b c e = e refl
if-same false a b c e = refl

and-right : (a b : Bool) → (a && b) ≡ true → b ≡ true
and-right true b e = e
and-right false b e = absurd (cc e)

-- The condition of both loops: a further round is made.
abbrev pub asks_again : Shares → Bool
asks_again s = ltb 0 s.peers_remaining && s.needs_adjustment

asks_again-false : (s : Shares) → s.needs_adjustment ≡ false → asks_again s ≡ false
asks_again-false s e = ground (arith, e)

-- One round more than there are peers left changes nothing.
limit_rounds-stable :
    (fuel now elapsed : ℕ) (s : Shares)
    → Enough (is_unsettled now) fuel s
    → limit_rounds (suc fuel) now elapsed s ≡ limit_rounds fuel now elapsed s
unfolding limit_rounds
limit_rounds-stable zero now elapsed s (inl e) = rw e (ground arith)
limit_rounds-stable zero now elapsed s (inr h) = absurd (omega (arith, h))
limit_rounds-stable (suc fuel) now elapsed s h =
    let throttle = share_throttle s.bandwidth s.data_total in
    let t : Shares = record s { needs_adjustment = false } in
    let s' = limit_round now elapsed throttle s.peers t in
    if-same (ltb 0 s.peers_remaining && s.needs_adjustment) (limit_rounds (suc fuel) now elapsed s')
      (limit_rounds fuel now elapsed s') s
      (λ e. limit_rounds-stable fuel now elapsed s' (
        Enough-next (is_unsettled now) fuel s s'
          (and-right (ltb 0 s.peers_remaining) s.needs_adjustment e) h
          (limit_round-Advances now elapsed throttle s.peers t)))

-- With enough fuel it is the loop's condition that ends it.
limit_rounds-done :
    (fuel now elapsed : ℕ) (s : Shares)
    → Enough (is_unsettled now) fuel s
    → asks_again (limit_rounds fuel now elapsed s) ≡ false
unfolding limit_rounds
limit_rounds-done zero now elapsed s (inl e) = asks_again-false s e
limit_rounds-done zero now elapsed s (inr h) = absurd (omega (arith, h))
limit_rounds-done (suc fuel) now elapsed s h =
    let throttle = share_throttle s.bandwidth s.data_total in
    let t : Shares = record s { needs_adjustment = false } in
    let s' = limit_round now elapsed throttle s.peers t in
    elim (Bool-cases (ltb 0 s.peers_remaining && s.needs_adjustment)) [
      | inl e ↦ rw e (
          limit_rounds-done fuel now elapsed s' (
            Enough-next (is_unsettled now) fuel s s'
              (and-right (ltb 0 s.peers_remaining) s.needs_adjustment e) h
              (limit_round-Advances now elapsed throttle s.peers t)))
      | inr e ↦ rw e e
    ]

limit_rounds-more :
    (more now elapsed : ℕ) (s : Shares)
    → limit_rounds (more + (length s.peers + 1)) now elapsed s
      ≡ limit_rounds (length s.peers + 1) now elapsed s
limit_rounds-more zero now elapsed s = ap (λ n. limit_rounds n now elapsed s) (omega arith)
limit_rounds-more (suc more) now elapsed s =
    ap (λ n. limit_rounds n now elapsed s) (omega arith)
    ∙ limit_rounds-stable (more + (length s.peers + 1)) now elapsed s
        (inr (omega (arith, count-length (is_unsettled now) s.peers)))
    ∙ limit_rounds-more more now elapsed s

-- The first loop of the bandwidth throttle ends: whatever the bandwidth, the data and the clock, after
-- at most one round more than there are peers its condition, that peers remain and that the last round
-- asked for a further one, no longer holds; and a greater bound on the rounds gives the same shares.
pub limit_rounds-ends :
    (more now elapsed : ℕ) (s : Shares)
    → (limit_rounds (more + (length s.peers + 1)) now elapsed s
        ≡ limit_rounds (length s.peers + 1) now elapsed s)
      × (asks_again (limit_rounds (length s.peers + 1) now elapsed s) ≡ false)
limit_rounds-ends more now elapsed s = (
  limit_rounds-more more now elapsed s,
  limit_rounds-done (length s.peers + 1) now elapsed s
      (inr (omega (arith, count-length (is_unsettled now) s.peers))),
)

-- The peers that still have a share of the host's incoming bandwidth to give up.
abbrev holds_share : ℕ → Peer → Bool
holds_share now p = is_connected p.state && not (p.incoming_bandwidth_throttle_epoch == now)

keeps_share-holds :
    (now limit : ℕ) (p : Peer) → keeps_share now limit p ≡ false → holds_share now p ≡ true
unfolding keeps_share
keeps_share-holds now limit p e = ground (arith, e)

holds_share-given :
    (now : ℕ) (p : Peer)
    → holds_share now (record p { incoming_bandwidth_throttle_epoch = now }) ≡ false
holds_share-given now p = ground arith

give_up_round-Advances :
    (now limit : ℕ) (ps : List Peer) (s : Shares)
    → Advances (holds_share now) ps s.needs_adjustment (give_up_round now limit ps s)
unfolding give_up_round
give_up_round-Advances now limit [] s = inl (refl, refl)
give_up_round-Advances now limit (p ∷ ps) s =
    let s' : Shares = record s {
      peers_remaining = sub32 s.peers_remaining 1;
      bandwidth = sub32 s.bandwidth p.outgoing_bandwidth;
      needs_adjustment = true;
    } in
    let given : Peer = record p { incoming_bandwidth_throttle_epoch = now } in
    Advances-if (keeps_share now limit p) (holds_share now) (p ∷ ps) s.needs_adjustment
      (front p (give_up_round now limit ps s)) (front given (give_up_round now limit ps s'))
      (λ _.
        Advances-front (holds_share now) p ps s.needs_adjustment (give_up_round now limit ps s)
          (give_up_round-Advances now limit ps s))
      (λ e.
        Advances-settle (holds_share now) p given ps s.needs_adjustment true
          (give_up_round now limit ps s') (keeps_share-holds now limit p e)
          (holds_share-given now p) (give_up_round-Advances now limit ps s'))

give_up_rounds-stable :
    (fuel now limit : ℕ) (s : Shares)
    → Enough (holds_share now) fuel s
    → give_up_rounds (suc fuel) now limit s ≡ give_up_rounds fuel now limit s
unfolding give_up_rounds
give_up_rounds-stable zero now limit s (inl e) = rw e (ground arith)
give_up_rounds-stable zero now limit s (inr h) = absurd (omega (arith, h))
give_up_rounds-stable (suc fuel) now limit s h =
    let limit' = s.bandwidth / s.peers_remaining in
    let t : Shares = record s { needs_adjustment = false } in
    let s' = give_up_round now limit' s.peers t in
    if-same (ltb 0 s.peers_remaining && s.needs_adjustment)
      (give_up_rounds (suc fuel) now limit' s') (give_up_rounds fuel now limit' s') (s, limit)
      (λ e. give_up_rounds-stable fuel now limit' s' (
        Enough-next (holds_share now) fuel s s'
          (and-right (ltb 0 s.peers_remaining) s.needs_adjustment e) h
          (give_up_round-Advances now limit' s.peers t)))

give_up_rounds-done :
    (fuel now limit : ℕ) (s : Shares)
    → Enough (holds_share now) fuel s
    → asks_again (give_up_rounds fuel now limit s).0 ≡ false
unfolding give_up_rounds
give_up_rounds-done zero now limit s (inl e) = asks_again-false s e
give_up_rounds-done zero now limit s (inr h) = absurd (omega (arith, h))
give_up_rounds-done (suc fuel) now limit s h =
    let limit' = s.bandwidth / s.peers_remaining in
    let t : Shares = record s { needs_adjustment = false } in
    let s' = give_up_round now limit' s.peers t in
    elim (Bool-cases (ltb 0 s.peers_remaining && s.needs_adjustment)) [
      | inl e ↦ rw e (
          give_up_rounds-done fuel now limit' s' (
            Enough-next (holds_share now) fuel s s'
              (and-right (ltb 0 s.peers_remaining) s.needs_adjustment e) h
              (give_up_round-Advances now limit' s.peers t)))
      | inr e ↦ rw e e
    ]

give_up_rounds-more :
    (more now limit : ℕ) (s : Shares)
    → give_up_rounds (more + (length s.peers + 1)) now limit s
      ≡ give_up_rounds (length s.peers + 1) now limit s
give_up_rounds-more zero now limit s = ap (λ n. give_up_rounds n now limit s) (omega arith)
give_up_rounds-more (suc more) now limit s =
    ap (λ n. give_up_rounds n now limit s) (omega arith)
    ∙ give_up_rounds-stable (more + (length s.peers + 1)) now limit s
        (inr (omega (arith, count-length (holds_share now) s.peers)))
    ∙ give_up_rounds-more more now limit s

-- The third loop of the bandwidth throttle, over the host's incoming bandwidth, ends too: after at most
-- one round more than there are peers its condition no longer holds, and a greater bound on the rounds
-- gives the same shares and the same limit.
pub give_up_rounds-ends :
    (more now limit : ℕ) (s : Shares)
    → (give_up_rounds (more + (length s.peers + 1)) now limit s
        ≡ give_up_rounds (length s.peers + 1) now limit s)
      × (asks_again (give_up_rounds (length s.peers + 1) now limit s).0 ≡ false)
give_up_rounds-ends more now limit s = (
  give_up_rounds-more more now limit s,
  give_up_rounds-done (length s.peers + 1) now limit s
      (inr (omega (arith, count-length (holds_share now) s.peers))),
)
