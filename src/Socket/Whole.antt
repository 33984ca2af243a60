-- ===== src/Socket/Whole.antt =====
-- A message goes out whole: what `ft_sock_send` gives to the socket, and that its loop ends.
use mathlib.Core.List.{append_assoc, append-nil}
use efa_libfabric_bench.Prelude.{
  ℕ, zero, suc, ◌+◌, ◌<◌, ◌≤◌, ◌≡◌, refl, sym, ap, ◌∙◌, true, List, [], ◌∷◌, ◌++◌, ◌==◌,
  if◌then◌else◌, take, drop, length, take-append-drop, length-drop, arith, ◌⊎◌, inl, inr,
}
use efa_libfabric_bench.Fabric.{Ret, val, fail, Error, Fabric, is_ok}
use efa_libfabric_bench.Context.{Context}
use efa_libfabric_bench.Socket.{
  Sent, accepted, busy, broken, Sockets, ft_force_progress, ended, ft_sock_send,
}

module _ {W : Type 0} (fab : Fabric W) (sk : Sockets W) where
  -- What the host promises (send(2)): the bytes that a socket has taken are `stream`, in order. A
  -- refusal, an error and a read of no completion leave it alone.
  pub record Stream (stream : ℕ → W → List ℕ) : Type 0 where
    pub accepts :
        (fd x k : ℕ) (xs : List ℕ) (w : W)
        → (sk.send fd (x ∷ xs) w).result ≡ accepted k
        → stream fd (sk.send fd (x ∷ xs) w).next ≡ stream fd w ++ take (suc k) (x ∷ xs)
    pub waits :
        (fd x : ℕ) (xs : List ℕ) (w : W)
        → (sk.send fd (x ∷ xs) w).result ≡ busy
        → stream fd (sk.send fd (x ∷ xs) w).next ≡ stream fd w
    pub breaks :
        (fd x : ℕ) (xs : List ℕ) (w : W) (e : Error)
        → (sk.send fd (x ∷ xs) w).result ≡ broken e
        → stream fd (sk.send fd (x ∷ xs) w).next ≡ stream fd w
    pub apart : (fd q : ℕ) (w : W) → stream fd (fab.cq_read q 0 w).next ≡ stream fd w

  -- That the peer drains the connection, which send(2) does not promise: the socket refuses with
  -- EAGAIN at most `patience` times in all.
  pub record Draining (patience : W → ℕ) : Type 0 where
    pub accepts :
        (fd x k : ℕ) (xs : List ℕ) (w : W)
        → (sk.send fd (x ∷ xs) w).result ≡ accepted k
        → patience (sk.send fd (x ∷ xs) w).next ≤ patience w
    pub waits :
        (fd x : ℕ) (xs : List ℕ) (w : W)
        → (sk.send fd (x ∷ xs) w).result ≡ busy
        → patience (sk.send fd (x ∷ xs) w).next < patience w
    pub apart : (q : ℕ) (w : W) → patience (fab.cq_read q 0 w).next ≤ patience w

Sent-cases :
    (x : Sent) → ((k : ℕ) × (x ≡ accepted k)) ⊎ ((x ≡ busy) ⊎ ((e : Error) × (x ≡ broken e)))
Sent-cases (accepted k) = inl (k, refl)
Sent-cases busy = inr (inl refl)
Sent-cases (broken e) = inr (inr (e, refl))

module _ {W : Type 0} {fab : Fabric W} {sk : Sockets W} {stream : ℕ → W → List ℕ} {patience : W → ℕ}
    (h : Stream fab sk stream) (drains : Draining fab sk patience) where
  progress-apart :
      (c : Context) (fd : ℕ) (w : W)
      → (stream fd (ft_force_progress fab sk c w) ≡ stream fd w)
        × (patience (ft_force_progress fab sk c w) ≤ patience w)
  unfolding ft_force_progress
  progress-apart c fd w =
      let u = if c.txcq == 0 then w else (fab.cq_read c.txcq 0 w).next in
      ground (
        arith,
        h.apart fd c.txcq w,
        h.apart fd c.rxcq u,
        drains.apart c.txcq w,
        drains.apart c.rxcq u,
      )

  module _ (n : ℕ) (c : Context) (fd x : ℕ) (xs : List ℕ) (w : W) where
    abbrev answer : W
    answer = (sk.send fd (x ∷ xs) w).next

    round_accepts :
        (k : ℕ)
        → (sk.send fd (x ∷ xs) w).result ≡ accepted k
        → ft_sock_send fab sk (suc n) c fd (x ∷ xs) w
          ≡ ft_sock_send fab sk n c fd (drop k xs) answer
    unfolding ft_sock_send
    round_accepts k e = ground arith

    round_waits :
        (sk.send fd (x ∷ xs) w).result ≡ busy
        → ft_sock_send fab sk (suc n) c fd (x ∷ xs) w
          ≡ ft_sock_send fab sk n c fd (x ∷ xs) (ft_force_progress fab sk c answer)
    unfolding ft_sock_send
    round_waits e = ground arith

    round_breaks :
        (err : Error)
        → (sk.send fd (x ∷ xs) w).result ≡ broken err
        → ft_sock_send fab sk (suc n) c fd (x ∷ xs) w ≡ ended (fail err) [] answer
    unfolding ft_sock_send
    round_breaks err e = ground arith

  -- How the loop ends on a message.
  abbrev pub Delivered : ℕ → Context → ℕ → List ℕ → W → Type 0
  Delivered n c fd msg w =
      (r : Ret) × (t : W) × (ft_sock_send fab sk n c fd msg w ≡ ended r [] t)
      × (sent : List ℕ) × (rest : List ℕ) × (msg ≡ sent ++ rest)
      × (stream fd t ≡ stream fd w ++ sent)
      × (is_ok r ≡ true → rest ≡ [])

  -- Where the socket refuses with EAGAIN at most `patience` times, `ft_sock_send` returns within a
  -- round for each byte, for each refusal and one more; the socket has then taken the bytes of a first part of the message, in order and
  -- each once, and the whole message if the result is 0.
  pub ft_sock_send_delivers :
      (n : ℕ) (c : Context) (fd : ℕ) (msg : List ℕ) (w : W)
      → length msg + patience w < n
      → Delivered n c fd msg w
  unfolding ft_sock_send
  ft_sock_send_delivers zero c fd msg w m = absurd (omega arith)
  ft_sock_send_delivers (suc n) c fd [] w m =
      (val 0, w, refl, [], [], refl, sym (append-nil (stream fd w)), λ _. refl)
  ft_sock_send_delivers (suc n) c fd (x ∷ xs) w m =
      elim (Sent-cases (sk.send fd (x ∷ xs) w).result) [
        | inl (k, e) ↦
            let u = (sk.send fd (x ∷ xs) w).next in
            let a = h.accepts fd x k xs w e in
            let (r, t, run, sent, rest, whole, out, all) =
              ft_sock_send_delivers n c fd (drop k xs) u
                (omega (arith, drains.accepts fd x k xs w e, length-drop k xs)) in
            (
              r,
              t,
              round_accepts n c fd x xs w k e ∙ run,
              take (suc k) (x ∷ xs) ++ sent,
              rest,
              sym (ap (λ l. x ∷ l) (take-append-drop k xs))
                  ∙ ap (λ l. (x ∷ take k xs) ++ l) whole
                  ∙ sym (append_assoc (x ∷ take k xs) sent rest),
              out ∙ ap (λ l. l ++ sent) a ∙ append_assoc (stream fd w) (take (suc k) (x ∷ xs)) sent,
              all,
            )
        | inr (inl e) ↦
            let v = (sk.send fd (x ∷ xs) w).next in
            let a = h.waits fd x xs w e in
            let p = progress-apart c fd v in
            let (r, t, run, sent, rest, whole, out, all) =
              ft_sock_send_delivers n c fd (x ∷ xs) (ft_force_progress fab sk c v)
                (omega (arith, drains.waits fd x xs w e, p.1)) in
            (
              r,
              t,
              round_waits n c fd x xs w e ∙ run,
              sent,
              rest,
              whole,
              out ∙ ap (λ l. l ++ sent) (p.0 ∙ a),
              all,
            )
        | inr (inr (err, e)) ↦ (
          fail err,
          (sk.send fd (x ∷ xs) w).next,
          round_breaks n c fd x xs w err e,
          [],
          x ∷ xs,
          refl,
          h.breaks fd x xs w err e ∙ sym (append-nil (stream fd w)),
          λ k. absurd (ground arith),
        )
      ]
