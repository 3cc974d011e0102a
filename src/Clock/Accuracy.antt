-- ===== src/Clock/Accuracy.antt =====
-- internal/clock/query.go: how far the measured offset is from the true one.
use whymiss.Prelude.{ℕ, String, ◌≡◌, refl, ◌∙◌, ap, arith}
use whymiss.Prelude.Int.{
  ℤ, pos, negsuc, pos_part, neg_part, quot, ◌+ℤ◌, ◌-ℤ◌, ◌≤ℤ◌, wrap64_id, clamp64_id, int_laws,
}
use whymiss.Prelude.Time.{Time, sub_time}
use whymiss.Prelude.Float.{FloatOps}
use whymiss.Clock.{Reading}
use whymiss.Clock.Ntp.{from_ntp_near}
use whymiss.Clock.Packet.{Packet, receive_timestamp, transmit_timestamp}
use whymiss.Clock.Query.{
  measured, received, sntp_offset, sntp_delay, measure, query, max_trusted_round_trip,
}

-- Two instants less than 2 ^ 61 nanoseconds apart, some 73 years.
abbrev pub IsSpan : ℤ → ℤ → Type 0
IsSpan a b = (a -ℤ b ≤ℤ pos 2305843009213693951) × (b -ℤ a ≤ℤ pos 2305843009213693951)

sub_time_exact : (a b : Time) → IsSpan a.ns b.ns → sub_time a b ≡ a.ns -ℤ b.ns
unfolding sub_time
sub_time_exact a b h = clamp64_id _ (omega int_laws, omega int_laws)

module _ (t1 t2 t3 t4 : Time) (sent : IsSpan t2.ns t1.ns) (back : IsSpan t3.ns t4.ns)
    (here : IsSpan t4.ns t1.ns) (there : IsSpan t3.ns t2.ns) where
  sntp_delay_exact : sntp_delay t1 t2 t3 t4 ≡ t4.ns -ℤ t1.ns -ℤ (t3.ns -ℤ t2.ns)
  unfolding sntp_delay
  sntp_delay_exact =
      rw (sub_time_exact t4 t1 here, sub_time_exact t3 t2 there)
        (wrap64_id _ (omega int_laws, omega int_laws))

  sntp_offset_exact : sntp_offset t1 t2 t3 t4 ≡ quot (t2.ns -ℤ t1.ns +ℤ (t3.ns -ℤ t4.ns)) 2
  unfolding sntp_offset
  sntp_offset_exact =
      rw
        (
          sub_time_exact t2 t1 sent,
          sub_time_exact t3 t4 back,
          wrap64_id (t2.ns -ℤ t1.ns +ℤ (t3.ns -ℤ t4.ns)) (omega int_laws, omega int_laws),
        )
        refl

-- Half of an integer, truncated.
half : (a : ℤ) → (a ≤ℤ quot a 2 +ℤ quot a 2 +ℤ pos 1) × (quot a 2 +ℤ quot a 2 ≤ℤ a +ℤ pos 1)
unfolding ◌+ℤ◌
half (pos n) = (ground arith, ground arith)
half (negsuc n) = (ground arith, ground arith)

-- The paths there and back differ by at most their sum.
within :
    (t1 t2 t3 t4 arrival departure theta : ℤ)
    → t1 ≤ℤ arrival
    → arrival ≤ℤ departure
    → departure ≤ℤ t4
    → t2 ≡ arrival +ℤ theta
    → t3 ≡ departure +ℤ theta
    → (quot (t2 -ℤ t1 +ℤ (t3 -ℤ t4)) 2 +ℤ quot (t2 -ℤ t1 +ℤ (t3 -ℤ t4)) 2
        ≤ℤ theta +ℤ theta +ℤ (t4 -ℤ t1 -ℤ (t3 -ℤ t2)) +ℤ pos 1)
      × (theta +ℤ theta
          ≤ℤ quot (t2 -ℤ t1 +ℤ (t3 -ℤ t4)) 2
            +ℤ quot (t2 -ℤ t1 +ℤ (t3 -ℤ t4)) 2
            +ℤ (t4 -ℤ t1 -ℤ (t3 -ℤ t2))
            +ℤ pos 1)
within t1 t2 t3 t4 arrival departure theta h in_order g e2 e3 =
    let (low_half, high_half) = half (t2 -ℤ t1 +ℤ (t3 -ℤ t4)) in
    let p2 = ap pos_part e2 in
    let n2 = ap neg_part e2 in
    let p3 = ap pos_part e3 in let n3 = ap neg_part e3 in (omega int_laws, omega int_laws)

module _ {F : Type 0} (fl : FloatOps F) (round : F → F) where
  -- An accepted measurement has the values of the formulas.
  accepted :
      (addr : String) (t1 t2 t3 t4 : Time) (r : Reading)
      → measure fl round addr t1 t2 t3 t4 ≡ measured r
      → (r.offset ≡ sntp_offset t1 t2 t3 t4)
        × (r.round_trip ≡ sntp_delay t1 t2 t3 t4)
        × (pos 0 ≤ℤ r.round_trip)
        × (r.round_trip ≤ℤ pos max_trusted_round_trip)
  unfolding measure
  accepted addr t1 t2 t3 t4 r h = (ground arith, ground arith, ground arith, ground arith)

  -- Where a query succeeds, the server's clock is `theta` ahead of the local one, and the reply's two
  -- timestamps are the server's readings at two local instants, one after the other, between the
  -- sending of the request and the receipt of the reply, with these and the offset within 2 ^ 59
  -- nanoseconds, the measured offset is from `theta` at most half the measured round trip and half a
  -- nanosecond away; and that round trip is between 0 and 1 s.
  pub query-IsAccurate :
      (addr : String) (t1 : Time) (n : ℕ) (resp : Packet) (t4 : Time) (r : Reading)
      (arrival departure theta : ℤ)
      → query fl round addr t1 (received n resp t4) ≡ measured r
      → t1.ns ≤ℤ arrival
      → arrival ≤ℤ departure
      → departure ≤ℤ t4.ns
      → (from_ntp_near fl round (receive_timestamp resp) t4).ns ≡ arrival +ℤ theta
      → (from_ntp_near fl round (transmit_timestamp resp) t4).ns ≡ departure +ℤ theta
      → t4.ns ≤ℤ t1.ns +ℤ pos 576460752303423488
      → negsuc 576460752303423487 ≤ℤ theta
      → theta ≤ℤ pos 576460752303423488
      → (r.offset +ℤ r.offset ≤ℤ theta +ℤ theta +ℤ r.round_trip +ℤ pos 1)
        × (theta +ℤ theta ≤ℤ r.offset +ℤ r.offset +ℤ r.round_trip +ℤ pos 1)
        × (pos 0 ≤ℤ r.round_trip)
        × (r.round_trip ≤ℤ pos max_trusted_round_trip)
  unfolding query
  query-IsAccurate addr t1 n resp t4 r arrival departure theta h before_arrival in_order after e2 e3
        span low high =
      let t2 = from_ntp_near fl round (receive_timestamp resp) t4 in
      let t3 = from_ntp_near fl round (transmit_timestamp resp) t4 in
      let m : measure fl round addr t1 t2 t3 t4 ≡ measured r = ground arith in
      let (eo, ed, some_delay, bounded) = accepted addr t1 t2 t3 t4 r m in
      let sent : IsSpan t2.ns t1.ns = rw e2 (omega int_laws, omega int_laws) in
      let back : IsSpan t3.ns t4.ns = rw e3 (omega int_laws, omega int_laws) in
      let here : IsSpan t4.ns t1.ns = (omega int_laws, omega int_laws) in
      let there : IsSpan t3.ns t2.ns = rw (e2, e3) (omega int_laws, omega int_laws) in
      let offset_is = eo ∙ sntp_offset_exact t1 t2 t3 t4 sent back here there in
      let delay_is = ed ∙ sntp_delay_exact t1 t2 t3 t4 sent back here there in
      let close =
        within t1.ns t2.ns t3.ns t4.ns arrival departure theta before_arrival in_order after e2
          e3 in
      (rw (offset_is, delay_is) close.0, rw (offset_is, delay_is) close.1, some_delay, bounded)
