-- ===== src/Node/Ports/Turns.antt =====
-- The order in which the sockets are handed out.
use cpcluster.Prelude.{
  ℕ, zero, suc, ◌+◌, ◌%◌, ◌^◌, ◌<◌, List, [], ◌∷◌, get_elem?, length, ◌≡◌, refl, is_some, true,
  arith, ◌≢◌,
}
use native.Mathlib.Nat.{mod-lt}
use cpcluster.Node.Ports.{Sockets, InternetPorts, udp_socket}

pub is_some-get_elem? :
    {A : Type 0} (xs : List A) (i : ℕ) → i < length xs → is_some (get_elem? xs i) ≡ true
is_some-get_elem? [] i h = absurd (omega arith)
is_some-get_elem? (x ∷ xs) zero h = refl
is_some-get_elem? (x ∷ xs) (suc i) h = is_some-get_elem? xs i (omega arith)

module _ (os : Sockets) where
  -- What is left after a number of calls.
  unfoldable pub after : ℕ → InternetPorts os → InternetPorts os
  after zero p = p
  after (suc n) p = (udp_socket os (after n p)).1

  after_udp : (n : ℕ) (p : InternetPorts os) → (after n p).udp ≡ p.udp
  unfolding after udp_socket
  after_udp zero p = refl
  after_udp (suc n) p = ground (arith, after_udp n p)

  after_idx :
      (n : ℕ) (p : InternetPorts os)
      → p.udp ≢ []
      → p.udp_idx + n < 2 ^ 64
      → (after n p).udp_idx ≡ p.udp_idx + n
  unfolding after udp_socket
  after_idx zero p h b = omega arith
  after_idx (suc n) p h b = ground (arith, after_udp n p, after_idx n p, h, b)

  udp_socket_at :
      (p : InternetPorts os)
      → p.udp ≢ []
      → (udp_socket os p).0 ≡ get_elem? p.udp (p.udp_idx % length p.udp)
  unfolding udp_socket
  udp_socket_at p h = ground (arith, h)

  nonempty : (p : InternetPorts os) → p.udp ≢ [] → 0 < length p.udp
  nonempty p h = ground (arith, h)

  udp_socket_turn :
      (n : ℕ) (p : InternetPorts os)
      → p.udp ≢ []
      → p.udp_idx + n < 2 ^ 64
      → (udp_socket os (after n p)).0 ≡ get_elem? p.udp ((p.udp_idx + n) % length p.udp)
  udp_socket_turn n p h b =
      ground (arith, udp_socket_at (after n p), after_udp n p, after_idx n p h b, h)

  -- The UDP sockets, where there are any, are handed out in turn: as long as the counter does not wrap
  -- around, the call after `n` others is given the socket `n` places on, and there is one at that place.
  pub udp_socket-after :
      (n : ℕ) (p : InternetPorts os)
      → p.udp ≢ []
      → p.udp_idx + n < 2 ^ 64
      → (is_some (udp_socket os (after n p)).0 ≡ true)
        × ((udp_socket os (after n p)).0 ≡ get_elem? p.udp ((p.udp_idx + n) % length p.udp))
  udp_socket-after n p h b =
      let turn = udp_socket_turn n p h b in
      let place = mod-lt (p.udp_idx + n) (nonempty p h) in
      (rw turn (is_some-get_elem? p.udp ((p.udp_idx + n) % length p.udp) place), turn)
