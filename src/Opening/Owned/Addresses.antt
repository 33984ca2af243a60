-- ===== src/Opening/Owned/Addresses.antt =====
-- The transfers over the out-of-band socket change no object of libfabric.
use efa_libfabric_bench.Prelude.{
  ℕ, zero, suc, ◌≡◌, ◌∙◌, refl, Bool, List, [], ◌∷◌, ◌++◌, drop, arith,
}
use efa_libfabric_bench.Fabric.{Fabric, fail, enotconn}
use efa_libfabric_bench.Context.{Context}
use efa_libfabric_bench.Context.Fids.{Fid}
use efa_libfabric_bench.Socket.{
  Sockets, Sent, accepted, busy, broken, Received, bytes, closed, not_yet, failed, Exchange, ended,
  endless, ft_force_progress, ft_sock_send, ft_sock_recv,
}
use efa_libfabric_bench.Opening.Owned.{FabricKeeps, SocketsKeep}

-- What a loop over a socket leaves.
abbrev pub ExchangeKeeps : {W : Type 0} → (Fid → W → Bool) → W → Exchange W → Type 0
ExchangeKeeps live w (ended r got u) = (y : Fid) → live y u ≡ live y w
ExchangeKeeps live w endless = Unit {0}

module _ {W : Type 0} {live : Fid → W → Bool} {fab : Fabric W} {sk : Sockets W}
    (law : FabricKeeps fab live) (sockets : SocketsKeep sk live) where
  progress_keeps :
      (c : Context) (w : W) (y : Fid) → live y (ft_force_progress fab sk c w) ≡ live y w
  unfolding ft_force_progress
  progress_keeps c w y = ground (
    arith,
    law.cq_read c.txcq 0 w y,
    law.cq_read c.rxcq 0 w y,
    law.cq_read c.rxcq 0 (fab.cq_read c.txcq 0 w).next y,
  )

  pub further :
      {v w : W} (x : Exchange W)
      → ((y : Fid) → live y v ≡ live y w)
      → ExchangeKeeps live v x
      → ExchangeKeeps live w x
  further (ended r got u) p q = λ y. q y ∙ p y
  further endless p q = tt

  sent_keeps :
      {w : W} (res : Sent) (u : W) (a : ℕ → Exchange W) (b : Exchange W)
      → ((y : Fid) → live y u ≡ live y w)
      → ((k : ℕ) → ExchangeKeeps live w (a k))
      → ExchangeKeeps live w b
      → ExchangeKeeps live w
          (elim res [ accepted k ↦ a k | busy ↦ b | broken e ↦ ended (fail e) [] u ])
  sent_keeps (accepted k) u a b p q r = q k
  sent_keeps busy u a b p q r = r
  sent_keeps (broken e) u a b p q r = p

  pub send_keeps :
      (n : ℕ) (c : Context) (fd : ℕ) (xs : List ℕ) (w : W)
      → ExchangeKeeps live w (ft_sock_send fab sk n c fd xs w)
  unfolding ft_sock_send
  send_keeps n c fd [] w = λ y. refl
  send_keeps zero c fd (x ∷ xs) w = tt
  send_keeps (suc n) c fd (x ∷ xs) w =
      let r = sk.send fd (x ∷ xs) w in
      let sent = λ (y : Fid). sockets.send fd (x ∷ xs) w y in
      sent_keeps r.result r.next _ _ sent
        (λ k. further _ sent (send_keeps n c fd (drop k xs) r.next))
        (further _ (λ y. progress_keeps c r.next y ∙ sent y)
          (send_keeps n c fd (x ∷ xs) (ft_force_progress fab sk c r.next)))

  recv_after :
      {w : W} (res : Received) (got : List ℕ) (u : W) (a : ℕ → List ℕ → Exchange W) (b : Exchange W)
      → ((y : Fid) → live y u ≡ live y w)
      → ((x : ℕ) (xs : List ℕ) → ExchangeKeeps live w (a x xs))
      → ExchangeKeeps live w b
      → ExchangeKeeps live w (elim res [
        | bytes x xs ↦ a x xs
        | closed ↦ ended (fail enotconn) got u
        | not_yet ↦ b
        | failed e ↦ ended (fail e) got u
      ])
  recv_after (bytes x xs) got u a b p q r = q x xs
  recv_after closed got u a b p q r = p
  recv_after not_yet got u a b p q r = r
  recv_after (failed e) got u a b p q r = p

  pub recv_keeps :
      (n : ℕ) (c : Context) (fd len : ℕ) (got : List ℕ) (w : W)
      → ExchangeKeeps live w (ft_sock_recv fab sk n c fd len got w)
  unfolding ft_sock_recv
  recv_keeps n c fd zero got w = λ y. refl
  recv_keeps zero c fd (suc len) got w = tt
  recv_keeps (suc n) c fd (suc len) got w =
      let r = sk.recv fd (suc len) w in
      let rcvd = λ (y : Fid). sockets.recv fd (suc len) w y in
      recv_after r.result got r.next _ _ rcvd
        (λ x xs. further _ rcvd (recv_keeps n c fd _ (got ++ (x ∷ xs)) r.next))
        (further _ (λ y. progress_keeps c r.next y ∙ rcvd y)
          (recv_keeps n c fd (suc len) got (ft_force_progress fab sk c r.next)))
